-- ===== src/Exemption/Service.antt =====
-- internal/service/policyexemption/exemption.go
use policy_operator.Base.{String, none, some, ◌==◌, if◌then◌else◌}
use policy_operator.Base.Text.{last_segment}
use policy_operator.Failure.{azure, ok, err}
use policy_operator.Api.Exemption.{AzurePolicyExemption, AzurePolicyExemptionSpec}
use policy_operator.Arm.{ArmExemption, Resource}
use policy_operator.World.{Env, Reply, reply, failed}
use policy_operator.World.Exemptions
use policy_operator.World.Go.{Go, ask, pure, panic, arm_command, new_string, ◌>>=◌}
use policy_operator.World.Try.{Try, nil_or}
use policy_operator.Common.Selectors.{arm_resource_selectors}

-- `*resp.Exemption.ID` of a successful answer
abbrev pub created_id : Reply (Resource ArmExemption) → Try String
created_id (failed text) = pure (err (azure text))
created_id (reply r) = elim (r.id) [ none ↦ panic | some id ↦ pure (ok id) ]

module _ (env : Env) where
  -- The last segment of the recorded ID keeps the name stable; a new exemption gets a UUID.
  unfoldable pub exemption_name : AzurePolicyExemption → Go String
  unfolding pure new_string last_segment
  exemption_name exemption =
      if exemption.status.exemption_id == ""
      then new_string env
      else pure (last_segment exemption.status.exemption_id)

  -- An expiry that does not parse is left out.
  unfoldable pub exemption_params : AzurePolicyExemptionSpec → ArmExemption
  unfolding arm_resource_selectors
  exemption_params spec = record {
    display_name = some spec.display_name;
    description = if spec.description == "" then none else some spec.description;
    policy_assignment_id = some spec.policy_assignment_id;
    exemption_category = some spec.exemption_category;
    expires_on = if spec.expires_on == "" then none else env.parse_rfc3339 spec.expires_on;
    resource_selectors = arm_resource_selectors spec.resource_selectors;
  }

  unfoldable pub create_or_update : AzurePolicyExemption → Try String
  unfolding ◌>>=◌ ask pure panic exemption_name exemption_params
  create_or_update exemption = do
    name ← exemption_name exemption
    answer ←
        Exemptions.create_or_update env exemption.spec.scope name (exemption_params exemption.spec)
    created_id answer

  unfoldable pub delete : String → String → Try (Unit {0})
  unfolding ◌>>=◌ pure arm_command last_segment
  delete scope exemption_id = do
    failure ← Exemptions.delete env scope (last_segment exemption_id)
    pure (nil_or azure failure)
