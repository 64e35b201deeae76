-- ===== src/Definition/Guards.antt =====
-- When the AzurePolicyDefinition controller may call Azure at all, and what it may overwrite.
use policy_operator.Base.{Bool, false, String, ◌≡◌, ◌≢◌, none, arith, eq_iff}
use policy_operator.Failure.{ok}
use policy_operator.Api.Definition.{AzurePolicyDefinition}
use policy_operator.World.{Env, Trace}
use policy_operator.World.Go.{returned}
use policy_operator.World.Views.{arm_writes, arm_calls}
use policy_operator.Definition.Object.{DefinitionService, has_finalizer}
use policy_operator.Definition.Wiring.{IsLawful}
use policy_operator.Definition.Deletion.{handle_deletion}
use policy_operator.Definition.Apply.{reconcile_definition, check_existing_definition}
use policy_operator.Definition.Controller.{reconcile_fetched}

module _ (env : Env) (svc : DefinitionService) (recorder : Bool) where
  -- Reconciling a definition that does not hold the finalizer calls nothing in Azure.
  no_finalizer_no_calls :
      (def : AzurePolicyDefinition) (t : Trace)
      → has_finalizer env def ≡ false
      → arm_calls (reconcile_fetched env svc recorder def t).1 ≡ arm_calls t
  unfolding reconcile_fetched handle_deletion
  no_finalizer_no_calls def t missing = ground arith

  -- For a service whose lookups write nothing, if Get finds an ID for a definition without a
  -- recorded one, reconcileDefinition writes nothing to Azure and returns without an error.
  taken_name_writes :
      (lawful : IsLawful svc) (def : AzurePolicyDefinition) (t : Trace) (id : String)
      → def.status.policy_definition_id ≡ ""
      → (svc.get def t).0 ≡ returned (ok id)
      → id ≢ ""
      → (arm_writes (reconcile_definition env svc recorder def t).1 ≡ arm_writes t)
        × ((reconcile_definition env svc recorder def t).0 ≡ returned none)
  unfolding reconcile_definition check_existing_definition
  taken_name_writes lawful def t id unbound found taken =
      simp unbound (ground (arith, eq_iff id "", lawful.writes-get def t))
