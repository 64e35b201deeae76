-- ===== src/Definition/Lifecycle/Ids.antt =====
-- The Azure service of AzurePolicyDefinition objects returns IDs that are not empty, as far as Azure does.
use policy_operator.Base.{true, ◌≡◌, refl, arith}
use policy_operator.Arm.{Resource, ArmDefinition}
use policy_operator.World.{Env, Trace, Reply, reply, failed}
use policy_operator.World.Go.{pure, panic}
use policy_operator.World.Go.Ids.{has_id, identifies, gives_id, asked_gives_id}
use policy_operator.Common.Metadata.{build_metadata}
use policy_operator.Definition.Service.{create_or_update, created_id}
use policy_operator.Definition.Wiring.{service}
use policy_operator.Definition.Lifecycle.Writes.{GivesIds}

created_has_id :
    (r : Reply (Resource ArmDefinition)) (t : Trace)
    → identifies r ≡ true
    → has_id (created_id r t).0 ≡ true
unfolding pure panic
created_has_id (failed text) t h = refl
created_has_id (reply r) t h = ground arith

module _ (env : Env) (identified : (t : Trace) → identifies (env.definition_reply t) ≡ true) where
  pub service-GivesIds : GivesIds (service env)
  unfolding create_or_update
  service-GivesIds def t =
      gives_id (build_metadata def.spec.metadata def.spec.version) _ t
        (λ metadata s. asked_gives_id _ env.definition_reply created_id s created_has_id identified)
