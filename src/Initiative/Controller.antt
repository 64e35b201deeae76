-- ===== src/Initiative/Controller.antt =====
-- internal/controller/azurepolicyinitiative_controller.go: Reconcile.
use policy_operator.Base.{List, String, Bool, false, none, some, not, if◌then◌else◌}
use policy_operator.Failure.{kube}
use policy_operator.Api.Meta.{NamespacedName, no_requeue, requeue_in, default_requeue_duration}
use policy_operator.Api.Initiative.{AzurePolicyInitiative}
use policy_operator.World.{Env, kube_call, get, Kind, Object, Fetched, found, not_found, get_failed}
use policy_operator.World.Go.{Go, ask, pure, kube_update, ◌>>=◌}
use policy_operator.Common.Reconcile.{Answer, answer, Step, done, next}
use policy_operator.Initiative.Object.{InitiativeService, has_finalizer, add_finalizer}
use policy_operator.Initiative.Deletion.{handle_deletion}
use policy_operator.Initiative.Apply.{reconcile_initiative}
use policy_operator.Initiative.Resolve.{
  Resolved, resolved, not_ready, not_resolved, resolve_policy_definition_ids,
}
use policy_operator.Initiative.Import.{handle_import}

module _ (env : Env) (svc : InitiativeService) (recorder : Bool) where
  abbrev pub after_import : List String → Step AzurePolicyInitiative → Go Answer
  after_import ids (done a) = pure a
  after_import ids (next initiative) = do
    failure ← reconcile_initiative env svc recorder initiative ids
    pure (answer (requeue_in default_requeue_duration) failure)

  abbrev pub resolved_all : AzurePolicyInitiative → Resolved → Go Answer
  resolved_all initiative (not_resolved e) = pure (answer no_requeue (some e))
  resolved_all initiative not_ready = pure (answer (requeue_in 10) none)
  resolved_all initiative (resolved ids) = do
    step ← handle_import env svc recorder initiative ids
    after_import ids step

  unfoldable pub reconcile_fetched : String → AzurePolicyInitiative → Go Answer
  unfolding ◌>>=◌ pure kube_update add_finalizer
  reconcile_fetched namespace initiative =
      if initiative.meta.is_deleting
      then (do
        failure ← handle_deletion env svc recorder initiative
        pure (answer no_requeue failure))
      else if not (has_finalizer env initiative)
      then (do
        failure ← kube_update env (Object.initiative (add_finalizer env initiative))
        pure (answer no_requeue failure))
      else (do
        ids ← resolve_policy_definition_ids env initiative namespace
        resolved_all initiative ids)

  -- client.IgnoreNotFound of the error of Get
  abbrev fetched : String → Fetched AzurePolicyInitiative → Go Answer
  fetched namespace (found initiative) = reconcile_fetched namespace initiative
  fetched namespace (not_found text) = pure (answer no_requeue none)
  fetched namespace (get_failed text) = pure (answer no_requeue (some (kube false text)))

  unfoldable pub reconcile : NamespacedName → Go Answer
  unfolding ◌>>=◌ ask pure reconcile_fetched
  reconcile req = do
    object ← ask (kube_call (get Kind.initiative req)) env.initiative_object
    fetched req.namespace object
