-- ===== src/Api/Exemption.antt =====
-- api/v1alpha1/azurepolicyexemption_types.go
use policy_operator.Base.{String, List}
use policy_operator.Api.Meta.{ObjectMeta, Condition}
use policy_operator.Api.Assignment.{ResourceSelectorSpec}

pub record AzurePolicyExemptionSpec : Type 0 where
  pub display_name : String
  pub description : String
  pub policy_assignment_id : String
  pub policy_assignment_ref : String
  pub scope : String
  pub exemption_category : String
  pub expires_on : String
  pub resource_selectors : List ResourceSelectorSpec

pub record AzurePolicyExemptionStatus : Type 0 where
  pub exemption_id : String
  pub conditions : List Condition

pub record AzurePolicyExemption : Type 0 where
  pub meta : ObjectMeta
  pub spec : AzurePolicyExemptionSpec
  pub status : AzurePolicyExemptionStatus
