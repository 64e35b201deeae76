-- ===== src/Initiative/Cleanup.antt =====
-- Deleting an AzurePolicyInitiative: when its finalizer goes, and what stays after a failure.
use policy_operator.Base.{String, Bool, true, false, ◌≡◌, ◌≢◌, ◌⊎◌, some, ◌∷◌, ◌==◌, arith, eq_iff}
use policy_operator.Base.Lists.{ne-cons}
use policy_operator.Failure.{ok, err, Error, error_text}
use policy_operator.Api.Meta.{
  annotation, annotation_import_mode, import_mode_observe_only, no_requeue, condition_false,
}
use policy_operator.Api.Initiative.{AzurePolicyInitiative}
use policy_operator.World.{Env, Trace, Object, update, update_status}
use policy_operator.World.Go.{returned}
use policy_operator.World.Views.{kube_writes}
use policy_operator.Common.Reconcile.{answer}
use policy_operator.Initiative.Object.{
  InitiativeService, has_finalizer, remove_finalizer, set_condition,
}
use policy_operator.Initiative.Wiring.{IsLawful}
use policy_operator.Initiative.Deletion.{handle_deletion}
use policy_operator.Initiative.Controller.{reconcile_fetched}

module _ (env : Env) (svc : InitiativeService) (recorder : Bool) (lawful : IsLawful svc) where
  -- For a service whose Delete writes nothing to Kubernetes, if Delete fails for a deleted
  -- initiative with the finalizer, a recorded ID and a mode other than observe-only, the error is
  -- returned and the only write to Kubernetes is the status DeleteFailed.
  failed_initiative_deletion_keeps :
      (initiative : AzurePolicyInitiative) (namespace : String) (t : Trace) (e : Error)
      → initiative.meta.is_deleting ≡ true
      → has_finalizer env initiative ≡ true
      → (annotation initiative.meta annotation_import_mode == import_mode_observe_only) ≡ false
      → initiative.status.initiative_id ≢ ""
      → (svc.delete initiative t).0 ≡ returned (err e)
      → ((reconcile_fetched env svc recorder namespace initiative t).0
          ≡ returned (answer no_requeue (some e)))
        × (kube_writes (reconcile_fetched env svc recorder namespace initiative t).1
            ≡ update_status (
                Object.initiative
                  (set_condition env condition_false "DeleteFailed" (error_text e) initiative))
              ∷ kube_writes t)
  unfolding reconcile_fetched handle_deletion
  failed_initiative_deletion_keeps initiative namespace t e deleting final mode bound failure =
      simp (deleting, final, mode)
        (ground (
          arith,
          eq_iff initiative.status.initiative_id "",
          lawful.kube-delete initiative t,
          failure,
        ))

  -- For a service whose Delete writes nothing to Kubernetes, if reconciling a deleted initiative
  -- with the finalizer writes it back without the finalizer and nothing else, then its mode is
  -- observe-only, or it has no recorded ID, or the Delete succeeded.
  pub initiative_finalizer_goes_safely :
      (initiative : AzurePolicyInitiative) (namespace : String) (t : Trace)
      → initiative.meta.is_deleting ≡ true
      → has_finalizer env initiative ≡ true
      → kube_writes (reconcile_fetched env svc recorder namespace initiative t).1
        ≡ update (Object.initiative (remove_finalizer env initiative)) ∷ kube_writes t
      → (annotation initiative.meta annotation_import_mode ≡ import_mode_observe_only)
        ⊎ (initiative.status.initiative_id ≡ "")
        ⊎ ((svc.delete initiative t).0 ≡ returned (ok tt))
  unfolding reconcile_fetched handle_deletion
  initiative_finalizer_goes_safely initiative namespace t deleting final h = ground (
    arith,
    eq_iff initiative.status.initiative_id "",
    eq_iff (annotation initiative.meta annotation_import_mode) import_mode_observe_only,
    lawful.kube-delete initiative t,
    ne-cons (update (Object.initiative (remove_finalizer env initiative))) (kube_writes t),
  )
