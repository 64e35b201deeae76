-- ===== src/Definition/Lifecycle/Invariant.antt =====
-- What holds of an AzurePolicyDefinition object however often it is edited and reconciled.
use policy_operator.Base.{Bool, true, false, ◌≡◌, ◌≢◌, ◌/=◌, ap, full_text, text_full}
use policy_operator.Api.Definition.{AzurePolicyDefinition}
use policy_operator.World.{Env, IsMachinery}
use policy_operator.Lifecycle.{Reaches, bound_is_held, stays_bound}
use policy_operator.Definition.Object.{DefinitionService, has_finalizer}
use policy_operator.Definition.Wiring.{IsLawful}
use policy_operator.Definition.Lifecycle.{Moves, MayGo, is_gone, is_bound, definition_refines}
use policy_operator.Definition.Lifecycle.Writes.{GivesIds}

module _ (env : Env) (machinery : IsMachinery env) (svc : DefinitionService) (lawful : IsLawful svc)
    (gives_ids : GivesIds svc) (recorder : Bool) (a b : AzurePolicyDefinition)
    (reaches : Reaches (Moves env svc recorder) a b) where
  -- Where apimachinery and the service meet their laws and Azure gives IDs, a live definition with
  -- a recorded ID holds the finalizer, if edits and stored writes of reconciles reach it from a
  -- definition without a recorded ID.
  pub bound_definition_is_held :
      a.status.policy_definition_id ≡ ""
      → b.meta.is_deleting ≡ false
      → b.status.policy_definition_id ≢ ""
      → has_finalizer env b ≡ true
  bound_definition_is_held unbound live bound =
      bound_is_held is_gone (has_finalizer env) is_bound (MayGo env svc recorder)
        (Moves env svc recorder) (definition_refines env machinery svc lawful gives_ids recorder)
        reaches (ap (λ i. i /= "") unbound) live (full_text bound)

  -- Where apimachinery and the service meet their laws and Azure gives IDs, edits and stored writes
  -- of reconciles take no recorded ID from a definition.
  bound_definition_stays_bound :
      a.status.policy_definition_id ≢ "" → b.status.policy_definition_id ≢ ""
  bound_definition_stays_bound bound = text_full (
      stays_bound is_gone (has_finalizer env) is_bound (MayGo env svc recorder)
        (Moves env svc recorder) (definition_refines env machinery svc lawful gives_ids recorder)
        reaches (full_text bound))
