-- ===== src/Startup/Client.antt =====
-- internal/client: New and ARMClient, and NewClient of internal/assignments and internal/exemptions.
use policy_operator.Base.{String, Option, none, some}
use policy_operator.Failure.{Error}
use policy_operator.Startup.Boot.{
  SdkClient, definitions_client, set_definitions_client, assignments_client, exemptions_client,
  role_assignments_client, role_definitions_client, Action, new_credential, new_sdk_client, Boot,
  boot_pure, attempt, ◌>>=◌,
}

-- A client of the SDK, by its constructor and its subscription ID.
pub record SdkHandle : Type 0 where
  pub client : SdkClient
  pub subscription : Option String

-- assignments.Client and exemptions.Client
pub record Wrapper : Type 0 where
  pub inner : SdkHandle

unfoldable pub new_client : SdkHandle → Wrapper
new_client c = record { inner = c }

pub record ArmClient : Type 0 where
  pub subscription_id : String
  pub definitions : SdkHandle
  pub initiatives : SdkHandle
  pub assignments : Wrapper
  pub exemptions : Wrapper
  pub role_assignments : SdkHandle
  pub role_definitions : SdkHandle

module _ (fails : Action → Option Error) where
  abbrev sdk_client : SdkClient → Option String → Boot SdkHandle
  sdk_client client subscription =
      attempt fails (new_sdk_client client subscription)
        (record { client = client; subscription = subscription })

  unfoldable pub new_arm_client : String → Boot ArmClient
  unfolding ◌>>=◌ boot_pure attempt new_client
  new_arm_client subscription_id = do
    credential ← attempt fails new_credential tt
    definitions ← sdk_client definitions_client (some subscription_id)
    initiatives ← sdk_client set_definitions_client (some subscription_id)
    assignments ← sdk_client assignments_client (some subscription_id)
    exemptions ← sdk_client exemptions_client (some subscription_id)
    role_assignments ← sdk_client role_assignments_client (some subscription_id)
    role_definitions ← sdk_client role_definitions_client none
    boot_pure (record {
      subscription_id = subscription_id;
      definitions = definitions;
      initiatives = initiatives;
      assignments = new_client assignments;
      exemptions = new_client exemptions;
      role_assignments = role_assignments;
      role_definitions = role_definitions;
    })
