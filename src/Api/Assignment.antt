-- ===== src/Api/Assignment.antt =====
-- api/v1alpha1/azurepolicyassignment_types.go
use policy_operator.Base.{String, Option, List}
use policy_operator.Value.{RawExtension}
use policy_operator.Api.Meta.{ObjectMeta, Condition}

pub record SelectorSpec : Type 0 where
  pub property : String
  pub operator : String
  pub values : List String

pub record ResourceSelectorSpec : Type 0 where
  pub name : String
  pub selectors : List SelectorSpec

pub record AssignmentExemptionSpec : Type 0 where
  pub display_name : String
  pub description : String
  pub scope : String
  pub exemption_category : String
  pub expires_on : String

pub record IdentityPermission : Type 0 where
  pub role : String
  pub role_definition_id : String
  pub scope : String

pub record AssignmentIdentity : Type 0 where
  pub type : String
  pub user_assigned_identity_id : String
  pub location : String
  pub permissions : List IdentityPermission

pub record AssignmentNonComplianceMessagePerPolicy : Type 0 where
  pub policy_reference_id : String
  pub message : String

pub record AssignmentNonComplianceMessages : Type 0 where
  pub default : String
  pub per_policy : List AssignmentNonComplianceMessagePerPolicy

pub record AzurePolicyAssignmentSpec : Type 0 where
  pub display_name : String
  pub description : String
  pub policy_definition_ref : String
  pub policy_definition_id : String
  pub scope : String
  pub not_scopes : List String
  pub enforcement_mode : String
  pub parameters : Option RawExtension
  pub metadata : Option RawExtension
  pub identity : Option AssignmentIdentity
  pub non_compliance_messages : Option AssignmentNonComplianceMessages
  pub resource_selectors : List ResourceSelectorSpec
  pub exemptions : List AssignmentExemptionSpec

pub record AssignmentExemptionStatus : Type 0 where
  pub display_name : String
  pub exemption_id : String
  pub scope : String

pub record AzurePolicyAssignmentStatus : Type 0 where
  pub assignment_id : String
  pub assigned_location : String
  pub mi_principal_id : String
  pub exemptions : List AssignmentExemptionStatus
  pub conditions : List Condition

pub record AzurePolicyAssignment : Type 0 where
  pub meta : ObjectMeta
  pub spec : AzurePolicyAssignmentSpec
  pub status : AzurePolicyAssignmentStatus
