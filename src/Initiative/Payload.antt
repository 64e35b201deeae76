-- ===== src/Initiative/Payload.antt =====
-- internal/service/policybundle/initiative.go: the parts of the request, and the drift of the
-- policy definitions.
use policy_operator.Base.{
  Bool, true, false, String, Option, none, some, List, [], ◌∷◌, ◌==◌, ◌/=◌, ◌||◌, if◌then◌else◌,
}
use policy_operator.Base.Lists.{Dict, insert}
use policy_operator.Value.{
  Value, null, text, object, Fields, end, field, field_at, RawExtension, unmarshal, unmarshal_map,
}
use policy_operator.Api.Initiative.{PolicyDefinitionReference, InitiativeParameter}
use policy_operator.Arm.{ArmParameterDefinition, ArmDefinitionReference}

-- Each parameter entry is {"value": v}, or the value itself.
unfoldable pub extract_parameter_value : Value → Value
unfolding field_at
extract_parameter_value (object m) = elim (field_at "value" m) [ some v ↦ v | none ↦ object m ]
extract_parameter_value v = v

unfoldable pub extracted : Fields → Dict Value
unfolding extract_parameter_value
extracted end = []
extracted (field k v m) = (k, extract_parameter_value v) ∷ extracted m

-- `len(params) == 0` reads as nil.
abbrev nil_if_empty : Dict Value → Option (Dict Value)
nil_if_empty [] = none
nil_if_empty (p ∷ ps) = some (p ∷ ps)

abbrev extracted_map : Option (Option Fields) → Option (Dict Value)
extracted_map none = none
extracted_map (some none) = none
extracted_map (some (some m)) = nil_if_empty (extracted m)

unfoldable pub build_definition_ref_parameters : Option RawExtension → Option (Dict Value)
unfolding extracted
build_definition_ref_parameters none = none
build_definition_ref_parameters (some raw) = extracted_map (unmarshal_map raw)

abbrev cons_ref :
    ArmDefinitionReference
    → Option (List (Option ArmDefinitionReference))
    → Option (List (Option ArmDefinitionReference))
cons_ref r none = none
cons_ref r (some rs) = some (some r ∷ rs)

-- `none` is the panic of an index out of range.
unfoldable pub build_policy_definition_refs :
    List PolicyDefinitionReference → List String → Option (List (Option ArmDefinitionReference))
unfolding build_definition_ref_parameters
build_policy_definition_refs [] ids = some []
build_policy_definition_refs (ref ∷ refs) [] = none
build_policy_definition_refs (ref ∷ refs) (id ∷ ids) =
    cons_ref
      (record {
        policy_definition_id = some id;
        parameters = build_definition_ref_parameters ref.parameters;
      })
      (build_policy_definition_refs refs ids)

abbrev default_of : Option RawExtension → Value
default_of none = null
default_of (some raw) = elim (unmarshal raw) [ none ↦ null | some v ↦ v ]

abbrev values_of : List String → List Value
values_of [] = []
values_of (s ∷ ss) = text s ∷ values_of ss

abbrev pub parameter_definition : InitiativeParameter → ArmParameterDefinition
parameter_definition p = record {
  type = some p.type;
  default_value = default_of p.default_value;
  allowed_values = values_of p.allowed_values;
  strong_type = if p.strong_type == "" then none else some p.strong_type;
}

-- The loop of buildParameters over the map built so far.
unfoldable pub add_parameters :
    Dict ArmParameterDefinition → List InitiativeParameter → Dict ArmParameterDefinition
unfolding insert
add_parameters m [] = m
add_parameters m (p ∷ ps) = add_parameters (insert p.name (parameter_definition p) m) ps

unfoldable pub build_parameters : List InitiativeParameter → Dict ArmParameterDefinition
unfolding add_parameters
build_parameters ps = add_parameters [] ps

abbrev differs : Option ArmDefinitionReference → String → Bool
differs none id = true
differs (some r) id = elim (r.policy_definition_id) [ none ↦ true | some live ↦ live /= id ]

-- Lists of different lengths drift, and so does a pair that differs.
unfoldable pub has_policy_definition_drift :
    List (Option ArmDefinitionReference) → List String → Bool
has_policy_definition_drift [] [] = false
has_policy_definition_drift [] (id ∷ ids) = true
has_policy_definition_drift (r ∷ rs) [] = true
has_policy_definition_drift (r ∷ rs) (id ∷ ids) = differs r id || has_policy_definition_drift rs ids
