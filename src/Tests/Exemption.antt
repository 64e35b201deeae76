-- ===== src/Tests/Exemption.antt =====
-- The theorems about AzurePolicyExemption objects at concrete inputs.
use policy_operator.Base.{Bool, true, String, List, [], ◌∷◌, ◌≡◌, refl, arith}
use policy_operator.Api.Exemption.{AzurePolicyExemption}
use policy_operator.World.{put_exemption, delete_exemption}
use policy_operator.World.Views.{arm_writes}
use policy_operator.Exemption.Object.{finalizer}
use policy_operator.Exemption.Service.{create_or_update, delete, exemption_params}
use policy_operator.Exemption.Laws.{recorded_exemption_name}
use policy_operator.Tests.Server.{server, meta}

abbrev exemption : Bool → List String → String → AzurePolicyExemption
exemption is_deleting finalizers id = record {
  meta = meta is_deleting finalizers [];
  spec = record {
    display_name = "Waiver";
    description = "";
    policy_assignment_id = "";
    policy_assignment_ref = "tagged";
    scope = "/subscriptions/s";
    exemption_category = "Waiver";
    expires_on = "";
    resource_selectors = [];
  };
  status = record { exemption_id = id; conditions = [] };
}

abbrev live_id : String
live_id = "/subscriptions/s/providers/Microsoft.Authorization/policyExemptions/u1"

abbrev pub dropped : AzurePolicyExemption
dropped = exemption true (finalizer ∷ []) live_id

recorded_exemption_name_example :
    (arm_writes (create_or_update server dropped []).1
      ≡ put_exemption "/subscriptions/s" "u1" (exemption_params server dropped.spec) ∷ [])
    × (arm_writes (delete server "/subscriptions/s" live_id []).1
        ≡ delete_exemption "/subscriptions/s" "u1" ∷ [])
recorded_exemption_name_example =
    recorded_exemption_name server dropped
      "/subscriptions/s/providers/Microsoft.Authorization/policyExemptions" "u1" [] refl
      (omega arith)
