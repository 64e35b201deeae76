-- ===== src/Definition/Cleanup.antt =====
-- Deleting an AzurePolicyDefinition: when its finalizer goes, and what stays after a failure.
use policy_operator.Base.{Bool, true, false, ◌≡◌, ◌≢◌, ◌⊎◌, some, ◌∷◌, ◌==◌, arith, eq_iff}
use policy_operator.Base.Lists.{ne-cons}
use policy_operator.Failure.{ok, err, Error, error_text}
use policy_operator.Api.Meta.{
  annotation, annotation_import_mode, import_mode_observe_only, no_requeue, condition_false,
}
use policy_operator.Api.Definition.{AzurePolicyDefinition}
use policy_operator.World.{Env, Trace, Object, update, update_status}
use policy_operator.World.Go.{returned}
use policy_operator.World.Views.{kube_writes}
use policy_operator.Common.Reconcile.{answer}
use policy_operator.Definition.Object.{
  DefinitionService, has_finalizer, remove_finalizer, set_condition,
}
use policy_operator.Definition.Wiring.{IsLawful}
use policy_operator.Definition.Deletion.{handle_deletion}
use policy_operator.Definition.Controller.{reconcile_fetched}

module _ (env : Env) (svc : DefinitionService) (recorder : Bool) (lawful : IsLawful svc) where
  -- For a service whose Delete writes nothing to Kubernetes, if Delete fails for a deleted
  -- definition with the finalizer, a recorded ID and a mode other than observe-only, the error is
  -- returned and the only write to Kubernetes is the status DeleteFailed.
  pub failed_deletion_keeps :
      (def : AzurePolicyDefinition) (t : Trace) (e : Error)
      → def.meta.is_deleting ≡ true
      → has_finalizer env def ≡ true
      → (annotation def.meta annotation_import_mode == import_mode_observe_only) ≡ false
      → def.status.policy_definition_id ≢ ""
      → (svc.delete def t).0 ≡ returned (err e)
      → ((reconcile_fetched env svc recorder def t).0 ≡ returned (answer no_requeue (some e)))
        × (kube_writes (reconcile_fetched env svc recorder def t).1
            ≡ update_status (
                Object.definition
                  (set_condition env condition_false "DeleteFailed" (error_text e) def))
              ∷ kube_writes t)
  unfolding reconcile_fetched handle_deletion
  failed_deletion_keeps def t e deleting final mode bound failure =
      simp (deleting, final, mode)
        (ground
          (arith, eq_iff def.status.policy_definition_id "", lawful.kube-delete def t, failure))

  -- For a service whose Delete writes nothing to Kubernetes, if reconciling a deleted definition
  -- with the finalizer writes it back without the finalizer and nothing else, then its mode is
  -- observe-only, or it has no recorded ID, or the Delete succeeded.
  pub finalizer_goes_safely :
      (def : AzurePolicyDefinition) (t : Trace)
      → def.meta.is_deleting ≡ true
      → has_finalizer env def ≡ true
      → kube_writes (reconcile_fetched env svc recorder def t).1
        ≡ update (Object.definition (remove_finalizer env def)) ∷ kube_writes t
      → (annotation def.meta annotation_import_mode ≡ import_mode_observe_only)
        ⊎ (def.status.policy_definition_id ≡ "")
        ⊎ ((svc.delete def t).0 ≡ returned (ok tt))
  unfolding reconcile_fetched handle_deletion
  finalizer_goes_safely def t deleting final h = ground (
    arith,
    eq_iff def.status.policy_definition_id "",
    eq_iff (annotation def.meta annotation_import_mode) import_mode_observe_only,
    lawful.kube-delete def t,
    ne-cons (update (Object.definition (remove_finalizer env def))) (kube_writes t),
  )
