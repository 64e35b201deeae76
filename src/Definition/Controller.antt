-- ===== src/Definition/Controller.antt =====
-- internal/controller/azurepolicydefinition_controller.go: Reconcile.
use policy_operator.Base.{Bool, false, none, some, not, if◌then◌else◌}
use policy_operator.Failure.{kube}
use policy_operator.Api.Meta.{NamespacedName, no_requeue, requeue_in, default_requeue_duration}
use policy_operator.Api.Definition.{AzurePolicyDefinition}
use policy_operator.World.{Env, kube_call, get, Kind, Object, Fetched, found, not_found, get_failed}
use policy_operator.World.Go.{Go, ask, pure, kube_update, ◌>>=◌}
use policy_operator.Common.Reconcile.{Answer, answer, Step, done, next}
use policy_operator.Definition.Object.{DefinitionService, has_finalizer, add_finalizer}
use policy_operator.Definition.Deletion.{handle_deletion}
use policy_operator.Definition.Apply.{reconcile_definition}
use policy_operator.Definition.Import.{handle_import}

module _ (env : Env) (svc : DefinitionService) (recorder : Bool) where
  abbrev pub after_import : Step AzurePolicyDefinition → Go Answer
  after_import (done a) = pure a
  after_import (next def) = do
    failure ← reconcile_definition env svc recorder def
    pure (answer (requeue_in default_requeue_duration) failure)

  unfoldable pub reconcile_fetched : AzurePolicyDefinition → Go Answer
  unfolding ◌>>=◌ pure kube_update add_finalizer
  reconcile_fetched def =
      if def.meta.is_deleting
      then (do failure ← handle_deletion env svc recorder def; pure (answer no_requeue failure))
      else if not (has_finalizer env def)
      then (do
        failure ← kube_update env (Object.definition (add_finalizer env def))
        pure (answer no_requeue failure))
      else (do step ← handle_import env svc recorder def; after_import step)

  -- client.IgnoreNotFound of the error of Get
  abbrev fetched : Fetched AzurePolicyDefinition → Go Answer
  fetched (found def) = reconcile_fetched def
  fetched (not_found text) = pure (answer no_requeue none)
  fetched (get_failed text) = pure (answer no_requeue (some (kube false text)))

  unfoldable pub reconcile : NamespacedName → Go Answer
  unfolding ◌>>=◌ ask pure reconcile_fetched
  reconcile req = do
    object ← ask (kube_call (get Kind.definition req)) env.definition_object
    fetched object
