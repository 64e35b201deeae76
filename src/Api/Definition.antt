-- ===== src/Api/Definition.antt =====
-- api/v1alpha1/azurepolicydefinition_types.go
use policy_operator.Base.{String, Option, List}
use policy_operator.Value.{RawExtension}
use policy_operator.Api.Meta.{ObjectMeta, Condition}

pub record AzurePolicyDefinitionSpec : Type 0 where
  pub display_name : String
  pub description : String
  pub policy_type : String
  pub mode : String
  pub version : String
  pub metadata : Option RawExtension
  pub parameters : Option RawExtension
  pub policy_rule : Option RawExtension
  -- a JSON text: what it decodes to, with the empty text apart
  pub policy_rule_json : Option RawExtension
  pub subscription_id : String
  pub management_group_id : String

pub record AzurePolicyDefinitionStatus : Type 0 where
  pub policy_definition_id : String
  pub applied_version : String
  pub conditions : List Condition

pub record AzurePolicyDefinition : Type 0 where
  pub meta : ObjectMeta
  pub spec : AzurePolicyDefinitionSpec
  pub status : AzurePolicyDefinitionStatus
