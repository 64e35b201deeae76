-- ===== src/Initiative/Service.antt =====
-- internal/service/policybundle/initiative.go
use policy_operator.Base.{String, Option, none, some, List, [], ◌∷◌, ◌++◌, ◌==◌, if◌then◌else◌}
use policy_operator.Base.Lists.{Dict}
use policy_operator.Base.Text.{last_segment, lower_contains}
use policy_operator.Value.{Value}
use policy_operator.Failure.{Error, azure, errorf, wrapf, Result, ok, err}
use policy_operator.Api.Initiative.{
  AzurePolicyInitiative, AzurePolicyInitiativeSpec, InitiativeParameter,
}
use policy_operator.Arm.{ArmSetDefinition, ArmDefinitionReference, ArmParameterDefinition, Resource}
use policy_operator.World.{
  Env, arm_call, get_set_definition, put_set_definition, delete_set_definition, Reply, reply,
  failed,
}
use policy_operator.World.Go.{ask, pure, panic, arm_command, ◌>>=◌}
use policy_operator.World.Try.{Try, nil_or}
use policy_operator.Common.Naming.{target_name, place_of, or_empty, is_not_found}
use policy_operator.Common.ImportId.{parse_import_id}
use policy_operator.Common.Metadata.{build_metadata}
use policy_operator.Common.Drift.{drift_of}
use policy_operator.Initiative.Payload.{
  build_policy_definition_refs, build_parameters, has_policy_definition_drift,
}

-- `*resp.SetDefinition.ID` of a successful answer
abbrev pub created_id : Reply (Resource ArmSetDefinition) → Try String
created_id (failed text) = pure (err (azure text))
created_id (reply r) = elim (r.id) [ none ↦ panic | some id ↦ pure (ok id) ]

abbrev existing_id : Reply (Resource ArmSetDefinition) → Result String
existing_id (failed text) = if is_not_found text then ok "" else err (azure text)
existing_id (reply r) = ok (or_empty r.id)

unfoldable pub parse_initiative_import_id : String → Result (String × String)
unfolding parse_import_id
parse_initiative_import_id import_id =
    parse_import_id "policySetDefinitions"
      (errorf "cannot parse policy set definition name from import ID: %q" (import_id ∷ []))
      import_id

unfoldable pub drift_fields :
    ArmSetDefinition → AzurePolicyInitiativeSpec → List String → List String
unfolding drift_of has_policy_definition_drift
drift_fields props spec resolved =
    drift_of "displayName" props.display_name spec.display_name
    ++ (drift_of "description" props.description spec.description
        ++ (if has_policy_definition_drift props.policy_definitions resolved
            then "policyDefinitions" ∷ []
            else []))

abbrev not_custom : String → Error
not_custom type =
    errorf "only Custom policy set definitions can be imported, got policyType %q" (type ∷ [])

abbrev checked_type :
    ArmSetDefinition → AzurePolicyInitiativeSpec → List String → Result (List String)
checked_type props spec resolved = elim (props.policy_type) [
  | none ↦ err (not_custom "unknown")
  | some type ↦
      if type == "Custom" then ok (drift_fields props spec resolved) else err (not_custom type)
]

-- What getInitiativeProperties and Import make of the answer of Get.
unfoldable pub judge_import :
    String
    → AzurePolicyInitiativeSpec
    → List String
    → Reply (Resource ArmSetDefinition)
    → Result (List String)
unfolding drift_fields
judge_import import_id spec resolved (failed text) =
    err (wrapf "fetching policy set definition %q: %w" (import_id ∷ []) (azure text))
judge_import import_id spec resolved (reply r) = elim (r.properties) [
  | none ↦ err (errorf "policy set definition %q returned no properties" (import_id ∷ []))
  | some props ↦ checked_type props spec resolved
]

unfoldable pub deleted_name : AzurePolicyInitiative → String
unfolding last_segment
deleted_name initiative =
    if initiative.status.initiative_id == ""
    then initiative.meta.name
    else last_segment initiative.status.initiative_id

abbrev parameters_of : List InitiativeParameter → Option (Dict ArmParameterDefinition)
parameters_of [] = none
parameters_of (p ∷ ps) = some (build_parameters (p ∷ ps))

unfoldable pub set_definition_params :
    AzurePolicyInitiativeSpec → Value → List (Option ArmDefinitionReference) → ArmSetDefinition
unfolding build_parameters
set_definition_params spec metadata refs = record {
  display_name = some spec.display_name;
  description = if spec.description == "" then none else some spec.description;
  policy_type = none;
  metadata = metadata;
  parameters = parameters_of spec.parameters;
  policy_definitions = refs;
}

module _ (env : Env) where
  abbrev pub put :
      AzurePolicyInitiative → Value → Option (List (Option ArmDefinitionReference)) → Try String
  put initiative metadata none = panic
  put initiative metadata (some refs) = do
    answer ←
        ask
          (arm_call (
            put_set_definition (place_of initiative.spec.management_group_id)
              (target_name initiative.meta) (set_definition_params initiative.spec metadata refs)))
          env.set_definition_reply
    created_id answer

  unfoldable pub create_or_update : AzurePolicyInitiative → List String → Try String
  unfolding ◌>>=◌ ask pure panic build_metadata build_policy_definition_refs set_definition_params
      target_name place_of
  create_or_update initiative resolved = do
    metadata ← build_metadata initiative.spec.metadata initiative.spec.version
    put initiative metadata
        (build_policy_definition_refs initiative.spec.policy_definitions resolved)

  unfoldable pub import : String → AzurePolicyInitiative → List String → Try (List String)
  unfolding ◌>>=◌ ask pure lower_contains parse_initiative_import_id judge_import place_of
  import import_id initiative resolved =
      if lower_contains import_id "/policysetdefinitions/"
      then elim (parse_initiative_import_id import_id) [
        | err e ↦ pure (err e)
        | ok (name, group) ↦ do
          answer ←
              ask (arm_call (get_set_definition (place_of group) name)) env.set_definition_reply
          pure (judge_import import_id initiative.spec resolved answer)
      ]
      else pure
          (err (errorf "import ID does not reference a Policy Set Definition: %q" (import_id ∷ [])))

  unfoldable pub get : AzurePolicyInitiative → Try String
  unfolding ◌>>=◌ ask pure is_not_found target_name place_of
  get initiative = do
    answer ←
        ask
          (arm_call (
            get_set_definition (place_of initiative.spec.management_group_id)
              (target_name initiative.meta)))
          env.set_definition_reply
    pure (existing_id answer)

  unfoldable pub delete : AzurePolicyInitiative → Try (Unit {0})
  unfolding ◌>>=◌ pure arm_command deleted_name place_of
  delete initiative = do
    failure ← arm_command env (
        delete_set_definition (place_of initiative.spec.management_group_id)
          (deleted_name initiative))
    pure (nil_or azure failure)
