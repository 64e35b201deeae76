-- ===== src/Definition/Settling.antt =====
-- What a successful write of an AzurePolicyDefinition stores, and that adopt-once then rests.
use policy_operator.Base.{Bool, true, false, String, ◌≡◌, ◌≢◌, some, none, ◌∷◌, arith, eq_iff, refl}
use policy_operator.Failure.{ok}
use policy_operator.Api.Meta.{
  annotation, annotation_import_mode, annotation_import_id, import_mode_only_once, requeue_in,
  default_requeue_duration, condition_true,
}
use policy_operator.Api.Definition.{AzurePolicyDefinition}
use policy_operator.World.{Env, Trace, Object, update_status, IsMachinery}
use policy_operator.World.Go.{returned}
use policy_operator.World.Views.{kube_writes}
use policy_operator.Common.Reconcile.{answer, ready}
use policy_operator.Definition.Object.{DefinitionService, has_finalizer}
use policy_operator.Definition.Wiring.{IsLawful}
use policy_operator.Definition.Apply.{
  reconcile_definition, applied_object, applied_reason, applied_message,
}
use policy_operator.Definition.Adoption.{applied_once_rests}
use policy_operator.Definition.Controller.{reconcile_fetched}

module _ (env : Env) (machinery : IsMachinery env) where
  -- The Ready condition after a successful write.
  ready-applied_object :
      (def : AzurePolicyDefinition) (id : String)
      → env.find_status_condition (applied_object env def id).status.conditions "Ready"
        ≡ some (ready condition_true (applied_reason def) (applied_message def) def.meta)
  unfolding applied_object
  ready-applied_object def id = machinery.find-set_self _ _

  module _ (svc : DefinitionService) (recorder : Bool) (lawful : IsLawful svc) where
    -- After the service has written a bound object, its status is stored once.
    stored_once :
        (def : AzurePolicyDefinition) (t : Trace) (id : String)
        → def.status.policy_definition_id ≢ ""
        → (svc.create_or_update def t).0 ≡ returned (ok id)
        → kube_writes (reconcile_definition env svc recorder def t).1
          ≡ update_status (Object.definition (applied_object env def id)) ∷ kube_writes t
    unfolding reconcile_definition
    stored_once def t id bound written =
        ground
          (arith, eq_iff def.status.policy_definition_id "", lawful.kube-create_or_update def t)

    -- Where apimachinery and the service meet their laws, a successful write of a bound definition
    -- in mode adopt-once, which returns the import ID, stores one status, and a further reconcile
    -- of the stored object makes no call and comes back in an hour.
    pub adopt_once_settles :
        (def : AzurePolicyDefinition) (t : Trace)
        → def.meta.is_deleting ≡ false
        → has_finalizer env def ≡ true
        → annotation def.meta annotation_import_id ≢ ""
        → annotation def.meta annotation_import_mode ≡ import_mode_only_once
        → def.status.policy_definition_id ≢ ""
        → (svc.create_or_update def t).0 ≡ returned (ok (annotation def.meta annotation_import_id))
        → (stored : AzurePolicyDefinition) × (kube_writes
              (reconcile_definition env svc recorder def t).1
            ≡ update_status (Object.definition stored) ∷ kube_writes t)
          × ((t' : Trace)
              → reconcile_fetched env svc recorder stored t'
                ≡ (returned (answer (requeue_in default_requeue_duration) none), t'))
    unfolding applied_reason
    adopt_once_settles def t live final import_id mode bound written =
        let id = annotation def.meta annotation_import_id in
        (
          applied_object env def id,
          stored_once def t id bound written,
          λ t'.
              unfold applied_object in
              applied_once_rests env svc recorder (applied_object env def id) t'
                (ready condition_true (applied_reason def) (applied_message def) def.meta) live
                final import_id refl mode (ready-applied_object def id) (simp mode),
        )
