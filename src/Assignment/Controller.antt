-- ===== src/Assignment/Controller.antt =====
-- internal/controller/azurepolicyassignment_controller.go: Reconcile.
use policy_operator.Base.{Bool, false, String, none, some, not, if◌then◌else◌}
use policy_operator.Failure.{kube}
use policy_operator.Api.Meta.{NamespacedName, no_requeue}
use policy_operator.Api.Assignment.{AzurePolicyAssignment}
use policy_operator.World.{Env, kube_call, get, Kind, Object, Fetched, found, not_found, get_failed}
use policy_operator.World.Go.{Go, ask, pure, kube_update, ◌>>=◌}
use policy_operator.Common.Reconcile.{Answer, answer, Step, done, next}
use policy_operator.Assignment.Object.{PolicyAssignmentService, has_finalizer, add_finalizer}
use policy_operator.Assignment.Deletion.{handle_deletion}
use policy_operator.Assignment.Resolve.{resolve_policy_definition_id}
use policy_operator.Assignment.Import.{handle_import}
use policy_operator.Assignment.Apply.{reconcile_create_or_update}

module _ (env : Env) (svc : PolicyAssignmentService) (recorder : Bool) where
  abbrev pub after_import : String → Step AzurePolicyAssignment → Go Answer
  after_import policy_definition_id (done a) = pure a
  after_import policy_definition_id (next assignment) =
      reconcile_create_or_update env svc recorder assignment policy_definition_id

  abbrev pub after_resolve : AzurePolicyAssignment → Step String → Go Answer
  after_resolve assignment (done a) = pure a
  after_resolve assignment (next policy_definition_id) = do
    step ← handle_import env svc recorder assignment policy_definition_id
    after_import policy_definition_id step

  unfoldable pub reconcile_fetched : String → AzurePolicyAssignment → Go Answer
  unfolding ◌>>=◌ pure kube_update add_finalizer
  reconcile_fetched namespace assignment =
      if assignment.meta.is_deleting
      then (do
        failure ← handle_deletion env svc recorder assignment
        pure (answer no_requeue failure))
      else if not (has_finalizer env assignment)
      then (do
        failure ← kube_update env (Object.assignment (add_finalizer env assignment))
        pure (answer no_requeue failure))
      else (do
        step ← resolve_policy_definition_id env namespace assignment
        after_resolve assignment step)

  -- client.IgnoreNotFound of the error of Get
  abbrev fetched : String → Fetched AzurePolicyAssignment → Go Answer
  fetched namespace (found assignment) = reconcile_fetched namespace assignment
  fetched namespace (not_found text) = pure (answer no_requeue none)
  fetched namespace (get_failed text) = pure (answer no_requeue (some (kube false text)))

  unfoldable pub reconcile : NamespacedName → Go Answer
  unfolding ◌>>=◌ ask pure reconcile_fetched
  reconcile req = do
    object ← ask (kube_call (get Kind.assignment req)) env.assignment_object
    fetched req.namespace object
