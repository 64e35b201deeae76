-- ===== src/Definition/Service.antt =====
-- internal/service/policydefinition/definition.go
use policy_operator.Base.{
  Bool, String, Option, none, some, List, [], ◌∷◌, ◌++◌, ◌||◌, ◌==◌, if◌then◌else◌,
}
use policy_operator.Base.Lists.{Dict}
use policy_operator.Base.Text.{last_segment, lower_contains, contains_text}
use policy_operator.Value.{Value, null, RawExtension, unmarshal}
use policy_operator.Failure.{Error, azure, errorf, wrapf, Result, ok, err}
use policy_operator.Api.Definition.{AzurePolicyDefinition, AzurePolicyDefinitionSpec}
use policy_operator.Arm.{ArmParameterDefinition, ArmDefinition, Resource}
use policy_operator.World.{
  Env, arm_call, get_definition, put_definition, delete_definition, Reply, reply, failed,
}
use policy_operator.World.Go.{ask, pure, panic, arm_command, ◌>>=◌}
use policy_operator.World.Try.{Try, nil_or}
use policy_operator.Common.Naming.{target_name, place_of, or_empty}
use policy_operator.Common.ImportId.{parse_import_id}
use policy_operator.Common.Metadata.{build_metadata}
use policy_operator.Common.Drift.{drift_of}

-- `if s != "" { p = to.Ptr(s) }`
abbrev ptr_if_set : String → Option String
ptr_if_set s = if s == "" then none else some s

abbrev pub decoded_rule : Option RawExtension → Value
decoded_rule none = null
decoded_rule (some raw) = elim (unmarshal raw) [ none ↦ null | some rule ↦ rule ]

-- policyRule, or without it policyRuleJson
unfoldable pub policy_rule : AzurePolicyDefinitionSpec → Value
policy_rule spec = elim (spec.policy_rule) [
  | some raw ↦ decoded_rule (some raw)
  | none ↦ decoded_rule spec.policy_rule_json
]

abbrev decoded_parameters :
    (Value → Option (Option (Dict (Option ArmParameterDefinition))))
    → Option RawExtension
    → Option (Dict (Option ArmParameterDefinition))
decoded_parameters decode none = none
decoded_parameters decode (some raw) = elim (unmarshal raw) [
  | none ↦ none
  | some v ↦ elim (decode v) [ none ↦ none | some m ↦ m ]
]

-- `*resp.Definition.ID` of a successful answer
abbrev pub created_id : Reply (Resource ArmDefinition) → Try String
created_id (failed text) = pure (err (azure text))
created_id (reply r) = elim (r.id) [ none ↦ panic | some id ↦ pure (ok id) ]

unfoldable pub is_not_found : String → Bool
unfolding contains_text lower_contains
is_not_found text = contains_text text "404" || lower_contains text "not found"

abbrev existing_id : Reply (Resource ArmDefinition) → Result String
existing_id (failed text) = if is_not_found text then ok "" else err (azure text)
existing_id (reply r) = ok (or_empty r.id)

unfoldable pub parse_definition_import_id : String → Result (String × String)
unfolding parse_import_id
parse_definition_import_id import_id =
    parse_import_id "policyDefinitions"
      (errorf "cannot parse policy definition name from import ID: %q" (import_id ∷ [])) import_id

-- The fields whose live value differs from the spec.
unfoldable pub drift_fields : ArmDefinition → AzurePolicyDefinitionSpec → List String
unfolding drift_of
drift_fields props spec =
    drift_of "displayName" props.display_name spec.display_name
    ++ (drift_of "description" props.description spec.description
        ++ drift_of "mode" props.mode spec.mode)

abbrev not_custom : String → Error
not_custom type =
    errorf "only Custom policy definitions can be imported, got policyType %q" (type ∷ [])

abbrev checked_type : ArmDefinition → AzurePolicyDefinitionSpec → Result (List String)
checked_type props spec = elim (props.policy_type) [
  | none ↦ err (not_custom "unknown")
  | some type ↦ if type == "Custom" then ok (drift_fields props spec) else err (not_custom type)
]

-- What Import makes of the answer of Get.
unfoldable pub judge_import :
    String → AzurePolicyDefinitionSpec → Reply (Resource ArmDefinition) → Result (List String)
unfolding drift_fields
judge_import import_id spec (failed text) =
    err (wrapf "fetching policy definition %q: %w" (import_id ∷ []) (azure text))
judge_import import_id spec (reply r) = elim (r.properties) [
  | none ↦ err (errorf "policy definition %q returned no properties" (import_id ∷ []))
  | some props ↦ checked_type props spec
]

-- The name that Delete uses: the last segment of the recorded ID.
unfoldable pub deleted_name : AzurePolicyDefinition → String
unfolding last_segment
deleted_name def =
    if def.status.policy_definition_id == ""
    then def.meta.name
    else last_segment def.status.policy_definition_id

module _ (env : Env) where
  unfoldable pub definition_params : AzurePolicyDefinitionSpec → Value → ArmDefinition
  unfolding policy_rule
  definition_params spec metadata = record {
    display_name = some spec.display_name;
    description = ptr_if_set spec.description;
    policy_type = ptr_if_set spec.policy_type;
    mode = some spec.mode;
    metadata = metadata;
    parameters = decoded_parameters env.decode_parameter_definitions spec.parameters;
    policy_rule = policy_rule spec;
  }

  unfoldable pub create_or_update : AzurePolicyDefinition → Try String
  unfolding ◌>>=◌ ask pure panic build_metadata definition_params target_name place_of
  create_or_update def = do
    metadata ← build_metadata def.spec.metadata def.spec.version
    answer ←
        ask
          (arm_call (
            put_definition (place_of def.spec.management_group_id) (target_name def.meta)
              (definition_params def.spec metadata)))
          env.definition_reply
    created_id answer

  unfoldable pub import : String → AzurePolicyDefinition → Try (List String)
  unfolding ◌>>=◌ ask pure lower_contains parse_definition_import_id judge_import place_of
  import import_id def =
      if lower_contains import_id "/policydefinitions/"
      then elim (parse_definition_import_id import_id) [
        | err e ↦ pure (err e)
        | ok (name, group) ↦ do
          answer ← ask (arm_call (get_definition (place_of group) name)) env.definition_reply
          pure (judge_import import_id def.spec answer)
      ]
      else pure
          (err (errorf "import ID does not reference a Policy Definition: %q" (import_id ∷ [])))

  unfoldable pub get : AzurePolicyDefinition → Try String
  unfolding ◌>>=◌ ask pure is_not_found target_name place_of
  get def = do
    answer ←
        ask
          (arm_call (get_definition (place_of def.spec.management_group_id) (target_name def.meta)))
          env.definition_reply
    pure (existing_id answer)

  unfoldable pub delete : AzurePolicyDefinition → Try (Unit {0})
  unfolding ◌>>=◌ pure arm_command deleted_name place_of
  delete def = do
    failure ←
        arm_command env
          (delete_definition (place_of def.spec.management_group_id) (deleted_name def))
    pure (nil_or azure failure)
