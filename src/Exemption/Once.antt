-- ===== src/Exemption/Once.antt =====
-- A reconcile of an AzurePolicyExemption makes at most one write to Kubernetes.
use policy_operator.Base.{suc, ◌≤◌, Bool, String, ◌≡◌, arith}
use policy_operator.Failure.{Result, ok, err}
use policy_operator.Api.Exemption.{AzurePolicyExemption}
use policy_operator.World.{Env, Trace}
use policy_operator.World.Go.{◌>>=◌, pure, kube_update_status, record_if_set, returned}
use policy_operator.World.Go.Once.{OneWrite, written, once_later, once_by}
use policy_operator.World.Go.Quiet.{IsQuiet}
use policy_operator.Common.Reconcile.{Step, done, next}
use policy_operator.Exemption.Object.{ExemptionService, set_condition}
use policy_operator.Exemption.Laws.{IsLawful}
use policy_operator.Exemption.Controller.{
  handle_deletion, applied, reconcile_exemption, resolve_assignment, after_resolve,
  reconcile_fetched,
}

module _ (env : Env) (svc : ExemptionService) (recorder : Bool) (lawful : IsLawful svc) where
  deletion-OneWrite :
      (exemption : AzurePolicyExemption) (t : Trace)
      → OneWrite (handle_deletion env svc recorder exemption) t
  unfolding handle_deletion
  deletion-OneWrite exemption t =
      ground (arith, lawful.kube-delete exemption.spec.scope exemption.status.exemption_id t)

  applied-OneWrite :
      (exemption : AzurePolicyExemption) (r : Result String) (t : Trace)
      → OneWrite (applied env svc recorder exemption r) t
  unfolding ◌>>=◌ kube_update_status record_if_set set_condition pure
  applied-OneWrite exemption (ok id) t = ground arith
  applied-OneWrite exemption (err e) t = ground arith

  reconcile_exemption-OneWrite :
      (exemption : AzurePolicyExemption) (t : Trace)
      → OneWrite (reconcile_exemption env svc recorder exemption) t
  unfolding reconcile_exemption
  reconcile_exemption-OneWrite exemption t =
      once_later (svc.create_or_update exemption) (applied env svc recorder exemption) t
        (lawful.kube-create_or_update exemption t)
        (λ r e. applied-OneWrite exemption r (svc.create_or_update exemption t).1)

  resolve-OneWrite :
      (exemption : AzurePolicyExemption) (t : Trace)
      → OneWrite (resolve_assignment env svc recorder exemption) t
  unfolding resolve_assignment
  resolve-OneWrite exemption t = ground arith

  resolved_quietly :
      (exemption d : AzurePolicyExemption) (t : Trace)
      → (resolve_assignment env svc recorder exemption t).0 ≡ returned (next d)
      → IsQuiet (resolve_assignment env svc recorder exemption) t
  unfolding resolve_assignment
  resolved_quietly exemption d t h = ground arith

  after_resolve-OneWrite :
      (exemption : AzurePolicyExemption) (t : Trace) (step : Step AzurePolicyExemption)
      → (resolve_assignment env svc recorder exemption t).0 ≡ returned step
      → written
          (after_resolve env svc recorder step
            (resolve_assignment env svc recorder exemption t).1).1
        ≤ suc (written t)
  unfolding pure
  after_resolve-OneWrite exemption t (done a) e = resolve-OneWrite exemption t
  after_resolve-OneWrite exemption t (next d) e =
      let s = (resolve_assignment env svc recorder exemption t).1 in
      let quiet = resolved_quietly exemption d t e in
      (rw quiet at (reconcile_exemption-OneWrite d s))

  -- For a service that writes nothing to Kubernetes, a reconcile of an exemption makes at most one
  -- write to Kubernetes.
  pub exemption_writes_once :
      (exemption : AzurePolicyExemption) (t : Trace)
      → written (reconcile_fetched env svc recorder exemption t).1 ≤ suc (written t)
  unfolding reconcile_fetched
  exemption_writes_once exemption t = ground (
    arith,
    deletion-OneWrite exemption t,
    once_by (resolve_assignment env svc recorder exemption) (after_resolve env svc recorder) t
        (resolve-OneWrite exemption t) (after_resolve-OneWrite exemption t),
  )
