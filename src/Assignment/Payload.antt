-- ===== src/Assignment/Payload.antt =====
-- internal/service/policyassignment/assingment.go: the request that CreateOrUpdate builds.
use policy_operator.Base.{
  String, Option, none, some, List, [], ◌∷◌, ◌++◌, ◌==◌, ◌/=◌, ◌&&◌, if◌then◌else◌,
}
use policy_operator.Base.Lists.{Dict}
use policy_operator.Value.{
  Value, null, Fields, end, field, RawExtension, malformed, decodes, unmarshal, unmarshal_map,
}
use policy_operator.Api.Assignment.{
  AzurePolicyAssignment, AzurePolicyAssignmentSpec, AssignmentIdentity,
  AssignmentNonComplianceMessages, AssignmentNonComplianceMessagePerPolicy,
}
use policy_operator.Arm.{ArmAssignment, ArmIdentity, ArmNonComplianceMessage}
use policy_operator.World.{Env}
use policy_operator.Common.Selectors.{arm_resource_selectors}

abbrev ptr_if_set : String → Option String
ptr_if_set s = if s == "" then none else some s

abbrev pointers : List String → List (Option String)
pointers [] = []
pointers (s ∷ ss) = some s ∷ pointers ss

-- Entries with an empty message are skipped.
unfoldable pub per_policy_messages :
    List AssignmentNonComplianceMessagePerPolicy → List ArmNonComplianceMessage
per_policy_messages [] = []
per_policy_messages (p ∷ ps) =
    let rest = per_policy_messages ps in
    if p.message == ""
    then rest
    else record {
      message = some p.message;
      policy_definition_reference_id = some p.policy_reference_id;
    }
      ∷ rest

unfoldable pub non_compliance_messages :
    Option AssignmentNonComplianceMessages → List ArmNonComplianceMessage
unfolding per_policy_messages
non_compliance_messages none = []
non_compliance_messages (some m) =
    (if m.default == ""
      then []
      else record { message = some m.default; policy_definition_reference_id = none } ∷ [])
    ++ per_policy_messages m.per_policy

abbrev wrapped : Fields → Dict (Option Value)
wrapped end = []
wrapped (field k v m) = (k, some v) ∷ wrapped m

-- The second attempt: a flat map of values.
abbrev flat : Option (Option Fields) → Option (Dict (Option Value))
flat none = none
flat (some none) = some []
flat (some (some m)) = some (wrapped m)

module _ (env : Env) where
  unfoldable pub assignment_parameters : Option RawExtension → Option (Dict (Option Value))
  assignment_parameters none = none
  assignment_parameters (some (malformed bytes)) = none
  assignment_parameters (some (decodes v)) = elim (env.decode_parameter_values v) [
    | some m ↦ m
    | none ↦ flat (unmarshal_map (decodes v))
  ]

  unfoldable pub assignment_metadata : Option RawExtension → Value
  assignment_metadata none = null
  assignment_metadata (some raw) = elim (unmarshal raw) [ none ↦ null | some v ↦ v ]

  unfoldable pub assignment_params : AzurePolicyAssignmentSpec → String → ArmAssignment
  unfolding non_compliance_messages assignment_parameters assignment_metadata arm_resource_selectors
  assignment_params spec policy_definition_id = record {
    display_name = some spec.display_name;
    description = ptr_if_set spec.description;
    policy_definition_id = some policy_definition_id;
    not_scopes = pointers spec.not_scopes;
    enforcement_mode = ptr_if_set spec.enforcement_mode;
    non_compliance_messages = non_compliance_messages spec.non_compliance_messages;
    parameters = assignment_parameters spec.parameters;
    metadata = assignment_metadata spec.metadata;
    resource_selectors = arm_resource_selectors spec.resource_selectors;
  }

abbrev identity_of : AssignmentIdentity → ArmIdentity
identity_of identity = record {
  type = some identity.type;
  principal_id = none;
  user_assigned_identities =
      if identity.type == "UserAssigned" && identity.user_assigned_identity_id /= ""
      then identity.user_assigned_identity_id ∷ []
      else [];
}

-- An identity of type None counts as no identity.
abbrev pub effective_identity : Option AssignmentIdentity → Option AssignmentIdentity
effective_identity none = none
effective_identity (some identity) = if identity.type == "None" then none else some identity

abbrev location_of : Option AssignmentIdentity → String → Option String
location_of none assigned_location = ptr_if_set assigned_location
location_of (some identity) assigned_location = ptr_if_set identity.location

-- params.Identity and params.Location; without an identity a recorded location is kept.
unfoldable pub arm_identity : AzurePolicyAssignment → Option ArmIdentity
arm_identity assignment = elim (effective_identity assignment.spec.identity) [
  | none ↦ none
  | some identity ↦ some (identity_of identity)
]

unfoldable pub arm_location : AzurePolicyAssignment → Option String
arm_location assignment =
    location_of (effective_identity assignment.spec.identity) assignment.status.assigned_location
