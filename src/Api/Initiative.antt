-- ===== src/Api/Initiative.antt =====
-- api/v1alpha1/azurepolicyinitiative_types.go
use policy_operator.Base.{String, Option, List}
use policy_operator.Value.{RawExtension}
use policy_operator.Api.Meta.{ObjectMeta, Condition}

pub record PolicyDefinitionReference : Type 0 where
  pub policy_definition_id : String
  pub policy_definition_ref : String
  pub parameters : Option RawExtension

pub record InitiativeParameter : Type 0 where
  pub name : String
  pub type : String
  pub default_value : Option RawExtension
  pub allowed_values : List String
  pub strong_type : String

pub record AzurePolicyInitiativeSpec : Type 0 where
  pub display_name : String
  pub description : String
  pub version : String
  pub metadata : Option RawExtension
  pub parameters : List InitiativeParameter
  pub policy_definitions : List PolicyDefinitionReference
  pub subscription_id : String
  pub management_group_id : String

pub record AzurePolicyInitiativeStatus : Type 0 where
  pub initiative_id : String
  pub applied_version : String
  pub conditions : List Condition

pub record AzurePolicyInitiative : Type 0 where
  pub meta : ObjectMeta
  pub spec : AzurePolicyInitiativeSpec
  pub status : AzurePolicyInitiativeStatus
