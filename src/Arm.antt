-- ===== src/Arm.antt =====
-- The requests and answers of the Azure SDK (armpolicy) that the services build and read. A pointer
-- is an Option; an interface{} is a Value.
use policy_operator.Base.{ℕ, String, Option, List}
use policy_operator.Base.Lists.{Dict}
use policy_operator.Value.{Value}

-- ParameterDefinitionsValue; `strong_type` is the field of its metadata
pub record ArmParameterDefinition : Type 0 where
  pub type : Option String
  pub default_value : Value
  pub allowed_values : List Value
  pub strong_type : Option String

pub record ArmDefinition : Type 0 where
  pub display_name : Option String
  pub description : Option String
  pub policy_type : Option String
  pub mode : Option String
  pub metadata : Value
  pub parameters : Option (Dict (Option ArmParameterDefinition))
  pub policy_rule : Value

-- DefinitionReference; the parameters are the map of ParameterValuesValue.Value
pub record ArmDefinitionReference : Type 0 where
  pub policy_definition_id : Option String
  pub parameters : Option (Dict Value)

pub record ArmSetDefinition : Type 0 where
  pub display_name : Option String
  pub description : Option String
  pub policy_type : Option String
  pub metadata : Value
  pub parameters : Option (Dict ArmParameterDefinition)
  pub policy_definitions : List (Option ArmDefinitionReference)

pub record ArmSelector : Type 0 where
  pub kind : Option String
  pub is_in : Option (List String)
  pub not_in : Option (List String)

pub record ArmResourceSelector : Type 0 where
  pub name : Option String
  pub selectors : List ArmSelector

pub record ArmNonComplianceMessage : Type 0 where
  pub message : Option String
  pub policy_definition_reference_id : Option String

-- AssignmentProperties
pub record ArmAssignment : Type 0 where
  pub display_name : Option String
  pub description : Option String
  pub policy_definition_id : Option String
  pub not_scopes : List (Option String)
  pub enforcement_mode : Option String
  pub non_compliance_messages : List ArmNonComplianceMessage
  pub parameters : Option (Dict (Option Value))
  pub metadata : Value
  pub resource_selectors : List ArmResourceSelector

-- Identity; of the user-assigned identities, the IDs
pub record ArmIdentity : Type 0 where
  pub type : Option String
  pub principal_id : Option String
  pub user_assigned_identities : List String

pub record ArmExemption : Type 0 where
  pub display_name : Option String
  pub description : Option String
  pub policy_assignment_id : Option String
  pub exemption_category : Option String
  pub expires_on : Option ℕ
  pub resource_selectors : List ArmResourceSelector

-- A resource: its ID and properties.
pub record Resource {ℓ} (P : Type ℓ) : Type ℓ where
  pub id : Option String
  pub properties : Option P

-- Assignment
pub record AssignmentResource : Type 0 where
  pub id : Option String
  pub location : Option String
  pub identity : Option ArmIdentity
  pub properties : Option ArmAssignment

-- Where definitions and initiatives live.
pub data Place : Type 0 where
  at_subscription : Place
  at_management_group : String → Place
