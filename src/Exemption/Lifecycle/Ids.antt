-- ===== src/Exemption/Lifecycle/Ids.antt =====
-- The Azure service of AzurePolicyExemption objects returns IDs that are not empty, as far as Azure does.
use policy_operator.Base.{true, ◌≡◌, refl, arith}
use policy_operator.Arm.{Resource, ArmExemption}
use policy_operator.World.{Env, Trace, Reply, reply, failed}
use policy_operator.World.Go.{pure, panic}
use policy_operator.World.Go.Ids.{has_id, identifies, gives_id, asked_gives_id}
use policy_operator.Exemption.Service.{create_or_update, created_id, exemption_name}
use policy_operator.Exemption.Laws.{service}
use policy_operator.Exemption.Lifecycle.Writes.{GivesIds}

created_has_id :
    (r : Reply (Resource ArmExemption)) (t : Trace)
    → identifies r ≡ true
    → has_id (created_id r t).0 ≡ true
unfolding pure panic
created_has_id (failed text) t h = refl
created_has_id (reply r) t h = ground arith

module _ (env : Env) (identified : (t : Trace) → identifies (env.exemption_reply t) ≡ true) where
  pub service-GivesIds : GivesIds (service env)
  unfolding create_or_update
  service-GivesIds exemption t =
      gives_id (exemption_name env exemption) _ t
        (λ name s. asked_gives_id _ env.exemption_reply created_id s created_has_id identified)
