-- ===== src/Exemption/Lifecycle/Invariant.antt =====
-- What holds of an AzurePolicyExemption object however often it is edited and reconciled.
use policy_operator.Base.{Bool, true, false, ◌≡◌, ◌≢◌, ◌/=◌, ap, full_text, text_full}
use policy_operator.Api.Exemption.{AzurePolicyExemption}
use policy_operator.World.{Env, IsMachinery}
use policy_operator.Lifecycle.{Reaches, bound_is_held, stays_bound, goes_cleared, LetsGo}
use policy_operator.Exemption.Object.{ExemptionService, has_finalizer}
use policy_operator.Exemption.Laws.{IsLawful}
use policy_operator.Exemption.Lifecycle.{Moves, MayGo, is_gone, is_bound, exemption_refines}
use policy_operator.Exemption.Lifecycle.Writes.{GivesIds}

module _ (env : Env) (machinery : IsMachinery env) (svc : ExemptionService) (lawful : IsLawful svc)
    (gives_ids : GivesIds svc) (recorder : Bool) (a b : AzurePolicyExemption)
    (reaches : Reaches (Moves env svc recorder) a b) where
  -- Where apimachinery and the service meet their laws and Azure gives IDs, a live exemption with a
  -- recorded ID holds the finalizer, if edits and stored writes of reconciles reach it from an
  -- exemption without a recorded ID.
  bound_exemption_is_held :
      a.status.exemption_id ≡ ""
      → b.meta.is_deleting ≡ false
      → b.status.exemption_id ≢ ""
      → has_finalizer env b ≡ true
  bound_exemption_is_held unbound live bound =
      bound_is_held is_gone (has_finalizer env) is_bound (MayGo env svc recorder)
        (Moves env svc recorder) (exemption_refines env machinery svc lawful gives_ids recorder)
        reaches (ap (λ i. i /= "") unbound) live (full_text bound)

  -- Where apimachinery and the service meet their laws and Azure gives IDs, edits and stored writes
  -- of reconciles take no recorded ID from an exemption.
  bound_exemption_stays_bound : a.status.exemption_id ≢ "" → b.status.exemption_id ≢ ""
  bound_exemption_stays_bound bound = text_full (
      stays_bound is_gone (has_finalizer env) is_bound (MayGo env svc recorder)
        (Moves env svc recorder) (exemption_refines env machinery svc lawful gives_ids recorder)
        reaches (full_text bound))

  -- Where apimachinery and the service meet their laws and Azure gives IDs, if an exemption with
  -- the finalizer reaches one without it by edits and stored writes of reconciles, some step on the
  -- way takes the finalizer from an object that is being deleted and cleared: it has no recorded
  -- ID, or its Delete succeeds at the start of a reconcile that writes it without the finalizer.
  pub held_exemption_goes_cleared :
      has_finalizer env a ≡ true
      → has_finalizer env b ≡ false
      → LetsGo is_gone (has_finalizer env) (MayGo env svc recorder) (Moves env svc recorder) a b
  held_exemption_goes_cleared held gone =
      goes_cleared is_gone (has_finalizer env) is_bound (MayGo env svc recorder)
        (Moves env svc recorder) (exemption_refines env machinery svc lawful gives_ids recorder)
        reaches held gone
