-- ===== src/Initiative/Lifecycle/Ids.antt =====
-- The Azure service of AzurePolicyInitiative objects returns IDs that are not empty, as far as Azure does.
use policy_operator.Base.{true, Option, none, some, List, ◌≡◌, refl, arith}
use policy_operator.Value.{Value}
use policy_operator.Api.Initiative.{AzurePolicyInitiative}
use policy_operator.Arm.{Resource, ArmSetDefinition, ArmDefinitionReference}
use policy_operator.World.{Env, Trace, Reply, reply, failed}
use policy_operator.World.Go.{pure, panic}
use policy_operator.World.Go.Ids.{has_id, identifies, gives_id, asked_gives_id}
use policy_operator.Common.Metadata.{build_metadata}
use policy_operator.Initiative.Payload.{build_policy_definition_refs}
use policy_operator.Initiative.Service.{create_or_update, created_id, put}
use policy_operator.Initiative.Wiring.{service}
use policy_operator.Initiative.Lifecycle.Writes.{GivesIds}

created_has_id :
    (r : Reply (Resource ArmSetDefinition)) (t : Trace)
    → identifies r ≡ true
    → has_id (created_id r t).0 ≡ true
unfolding pure panic
created_has_id (failed text) t h = refl
created_has_id (reply r) t h = ground arith

module _ (env : Env)
    (identified : (t : Trace) → identifies (env.set_definition_reply t) ≡ true) where
  put-has_id :
      (initiative : AzurePolicyInitiative) (metadata : Value)
      (refs : Option (List (Option ArmDefinitionReference))) (t : Trace)
      → has_id (put env initiative metadata refs t).0 ≡ true
  unfolding panic
  put-has_id initiative metadata none t = refl
  put-has_id initiative metadata (some refs) t =
      asked_gives_id _ env.set_definition_reply created_id t created_has_id identified

  pub service-GivesIds : GivesIds (service env)
  unfolding create_or_update
  service-GivesIds initiative resolved t =
      gives_id (build_metadata initiative.spec.metadata initiative.spec.version)
        (λ metadata.
          put env initiative metadata
            (build_policy_definition_refs initiative.spec.policy_definitions resolved))
        t (λ metadata s. put-has_id initiative metadata _ s)
