-- ===== src/Definition/Total.antt =====
-- The Azure service of definitions returns, and so a reconcile of a definition does.
use policy_operator.Base.{Bool, true, false, none, some, ◌≡◌, ◌≢◌, ◌⊎◌, refl, arith}
use policy_operator.Api.Definition.{AzurePolicyDefinition, AzurePolicyDefinitionSpec}
use policy_operator.Arm.{Resource, ArmDefinition}
use policy_operator.World.{Env, Trace, Reply, reply, failed}
use policy_operator.World.Go.{pure, panic}
use policy_operator.World.Go.Returns.{returns, chain_returns, asked_returns}
use policy_operator.Common.Metadata.{build_metadata, raw_fields}
use policy_operator.Common.Metadata.Version.{build_metadata-panics_iff}
use policy_operator.Definition.Service.{get, import, create_or_update, delete, created_id}
use policy_operator.Definition.Wiring.{service}
use policy_operator.Definition.Controller.{reconcile_fetched}
use policy_operator.Definition.Returning.{IsTotal, definition_reconcile_returns}

-- A resource in an answer has an ID.
abbrev pub has_pointer : Reply (Resource ArmDefinition) → Bool
has_pointer (failed text) = true
has_pointer (reply r) = elim (r.id) [ none ↦ false | some id ↦ true ]

-- The metadata is not the JSON null, or the version is empty.
abbrev pub CanBuild : AzurePolicyDefinitionSpec → Type 0
CanBuild spec = (raw_fields spec.metadata ≢ none) ⊎ (spec.version ≡ "")

created_returns :
    (r : Reply (Resource ArmDefinition)) (t : Trace)
    → has_pointer r ≡ true
    → returns (created_id r t).0 ≡ true
unfolding pure panic
created_returns (failed text) t h = refl
created_returns (reply r) t h = ground arith

metadata_returns :
    (spec : AzurePolicyDefinitionSpec) (t : Trace)
    → CanBuild spec
    → returns (build_metadata spec.metadata spec.version t).0 ≡ true
metadata_returns spec t can = ground (arith, build_metadata-panics_iff spec.metadata spec.version t)

module _ (env : Env) (pointed : (t : Trace) → has_pointer (env.definition_reply t) ≡ true) where
  create_returns :
      (def : AzurePolicyDefinition) (t : Trace)
      → CanBuild def.spec
      → returns (create_or_update env def t).0 ≡ true
  unfolding create_or_update
  create_returns def t can =
      chain_returns (build_metadata def.spec.metadata def.spec.version) _ t
        (metadata_returns def.spec t can)
        (λ metadata e s.
          asked_returns _ env.definition_reply created_id s (λ r. has_pointer r ≡ true)
            created_returns pointed)

  service-IsTotal : (spec : AzurePolicyDefinitionSpec) → CanBuild spec → IsTotal (service env) spec
  unfolding get import delete
  service-IsTotal spec can = record {
    get = λ def t. ground arith;
    create_or_update = λ def t same. create_returns def t (rw same can);
    delete = λ def t. ground arith;
    import = λ id def t. ground arith;
  }

  -- With a recorder, where Azure answers with IDs and the metadata is not the JSON null or the
  -- version is empty, a reconcile of a definition with the service of the operator returns.
  pub definition_reconcile_never_panics :
      (def : AzurePolicyDefinition) (t : Trace)
      → CanBuild def.spec
      → returns (reconcile_fetched env (service env) true def t).0 ≡ true
  definition_reconcile_never_panics def t can =
      definition_reconcile_returns env (service env) def.spec (service-IsTotal def.spec can) def t
        refl
