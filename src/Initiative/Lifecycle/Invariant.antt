-- ===== src/Initiative/Lifecycle/Invariant.antt =====
-- What holds of an AzurePolicyInitiative object however often it is edited and reconciled.
use policy_operator.Base.{Bool, true, false, ◌≡◌, ◌≢◌, ◌/=◌, ap, full_text, text_full}
use policy_operator.Api.Initiative.{AzurePolicyInitiative}
use policy_operator.World.{Env, IsMachinery}
use policy_operator.Lifecycle.{Reaches, bound_is_held, stays_bound}
use policy_operator.Initiative.Object.{InitiativeService, has_finalizer}
use policy_operator.Initiative.Wiring.{IsLawful}
use policy_operator.Initiative.Lifecycle.{Moves, MayGo, is_gone, is_bound, initiative_refines}
use policy_operator.Initiative.Lifecycle.Writes.{GivesIds}

module _ (env : Env) (machinery : IsMachinery env) (svc : InitiativeService) (lawful : IsLawful svc)
    (gives_ids : GivesIds svc) (recorder : Bool) (a b : AzurePolicyInitiative)
    (reaches : Reaches (Moves env svc recorder) a b) where
  -- Where apimachinery and the service meet their laws and Azure gives IDs, a live initiative with
  -- a recorded ID holds the finalizer, if edits and stored writes of reconciles reach it from an
  -- initiative without a recorded ID.
  bound_initiative_is_held :
      a.status.initiative_id ≡ ""
      → b.meta.is_deleting ≡ false
      → b.status.initiative_id ≢ ""
      → has_finalizer env b ≡ true
  bound_initiative_is_held unbound live bound =
      bound_is_held is_gone (has_finalizer env) is_bound (MayGo env svc recorder)
        (Moves env svc recorder) (initiative_refines env machinery svc lawful gives_ids recorder)
        reaches (ap (λ i. i /= "") unbound) live (full_text bound)

  -- Where apimachinery and the service meet their laws and Azure gives IDs, edits and stored writes
  -- of reconciles take no recorded ID from an initiative.
  bound_initiative_stays_bound : a.status.initiative_id ≢ "" → b.status.initiative_id ≢ ""
  bound_initiative_stays_bound bound = text_full (
      stays_bound is_gone (has_finalizer env) is_bound (MayGo env svc recorder)
        (Moves env svc recorder) (initiative_refines env machinery svc lawful gives_ids recorder)
        reaches (full_text bound))
