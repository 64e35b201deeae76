-- ===== src/Exemption/Lifecycle/Writes.antt =====
-- What the parts of a reconcile of an AzurePolicyExemption write to Kubernetes.
use policy_operator.Base.{Bool, true, false, String, ◌≡◌, ◌⊎◌, ◌∷◌, ◌/=◌, ap, sym, ◌∙◌, arith}
use policy_operator.Base.Lists.{ne-cons}
use policy_operator.Failure.{Result, ok, err}
use policy_operator.Api.Exemption.{AzurePolicyExemption}
use policy_operator.World.{Env, Trace, Object, KubeCall, update, update_status}
use policy_operator.World.Go.{◌>>=◌, pure, kube_update_status, record_if_set, returned}
use policy_operator.World.Go.Quiet.{Makes, made_later, made_by}
use policy_operator.World.Go.Ids.{has_id}
use policy_operator.World.Views.{kube_writes}
use policy_operator.Common.Reconcile.{Step, done, next}
use policy_operator.Exemption.Object.{
  ExemptionService, set_condition, has_finalizer, remove_finalizer,
}
use policy_operator.Exemption.Laws.{IsLawful}
use policy_operator.Exemption.Controller.{
  handle_deletion, applied, reconcile_exemption, resolve_assignment, after_resolve,
  reconcile_fetched,
}

-- A status that keeps the recorded ID.
abbrev pub KeepsId : AzurePolicyExemption → KubeCall → Type 0
KeepsId exemption (update_status (Object.exemption d)) =
    d.status.exemption_id ≡ exemption.status.exemption_id
KeepsId exemption _ = ⊥

-- A status that keeps the recorded ID or has one.
abbrev pub Reports : AzurePolicyExemption → KubeCall → Type 0
Reports exemption (update_status (Object.exemption d)) =
    (d.status.exemption_id ≡ exemption.status.exemption_id) ⊎ ((d.status.exemption_id /= "") ≡ true)
Reports exemption _ = ⊥

-- Azure gives what it creates an ID.
abbrev pub GivesIds : ExemptionService → Type 0
GivesIds svc =
    (exemption : AzurePolicyExemption) (t : Trace)
    → has_id (svc.create_or_update exemption t).0 ≡ true

module _ (env : Env) (svc : ExemptionService) (recorder : Bool) (lawful : IsLawful svc) where
  pub deletion_writes :
      (exemption : AzurePolicyExemption) (t : Trace) (w : KubeCall)
      → kube_writes (handle_deletion env svc recorder exemption t).1 ≡ w ∷ kube_writes t
      → (w ≡ update (Object.exemption (remove_finalizer env exemption))) ⊎ KeepsId exemption w
  unfolding handle_deletion
  deletion_writes exemption t w h = ground (
    arith,
    lawful.kube-delete exemption.spec.scope exemption.status.exemption_id t,
    ne-cons w (kube_writes t),
  )

  applied_writes :
      (exemption : AzurePolicyExemption) (r : Result String) (t : Trace) (w : KubeCall)
      → has_id (returned r) ≡ true
      → Makes (applied env svc recorder exemption r) t w
      → Reports exemption w
  unfolding ◌>>=◌ kube_update_status record_if_set set_condition pure
  applied_writes exemption (ok id) t w given h = ground arith
  applied_writes exemption (err e) t w given h = ground arith

  resolve_writes :
      (exemption : AzurePolicyExemption) (t : Trace) (w : KubeCall)
      → Makes (resolve_assignment env svc recorder exemption) t w
      → Reports exemption w
  unfolding resolve_assignment
  resolve_writes exemption t w h = ground (arith, ne-cons w (kube_writes t))

  resolved_quietly :
      (exemption e : AzurePolicyExemption) (t : Trace)
      → (resolve_assignment env svc recorder exemption t).0 ≡ returned (next e)
      → (kube_writes (resolve_assignment env svc recorder exemption t).1 ≡ kube_writes t)
        × (e.status ≡ exemption.status)
  unfolding resolve_assignment
  resolved_quietly exemption e t h = ground arith

  module _ (gives_ids : GivesIds svc) where
    reconcile_exemption_writes :
        (exemption : AzurePolicyExemption) (t : Trace) (w : KubeCall)
        → Makes (reconcile_exemption env svc recorder exemption) t w
        → Reports exemption w
    unfolding reconcile_exemption
    reconcile_exemption_writes exemption t w h =
        made_later (svc.create_or_update exemption) (applied env svc recorder exemption) t w
          (lawful.kube-create_or_update exemption t)
          (λ r e s. applied_writes exemption r s w (rw e at (gives_ids exemption t))) h

    same_status :
        (exemption e : AzurePolicyExemption) (w : KubeCall)
        → e.status ≡ exemption.status
        → Reports e w
        → Reports exemption w
    same_status exemption e w same h = ground arith

    resolve_step_writes :
        (exemption : AzurePolicyExemption) (t : Trace) (w : KubeCall)
        (step : Step AzurePolicyExemption)
        → (resolve_assignment env svc recorder exemption t).0 ≡ returned step
        → kube_writes
            (after_resolve env svc recorder step
              (resolve_assignment env svc recorder exemption t).1).1
          ≡ w ∷ kube_writes t
        → Reports exemption w
    unfolding pure
    resolve_step_writes exemption t w (done a) e h = resolve_writes exemption t w h
    resolve_step_writes exemption t w (next d) e h =
        let (quiet, same) = resolved_quietly exemption d t e in
        same_status exemption d w same (
          reconcile_exemption_writes d (resolve_assignment env svc recorder exemption t).1 w
            (h ∙ ap (λ ks. w ∷ ks) (sym quiet)))

    pub live_writes :
        (exemption : AzurePolicyExemption) (t : Trace) (w : KubeCall)
        → exemption.meta.is_deleting ≡ false
        → has_finalizer env exemption ≡ true
        → Makes (reconcile_fetched env svc recorder exemption) t w
        → Reports exemption w
    unfolding reconcile_fetched
    live_writes exemption t w live held h = ground (
      arith,
      made_by (resolve_assignment env svc recorder exemption) (after_resolve env svc recorder) t w
          (resolve_step_writes exemption t w) (resolve_writes exemption t w),
    )
