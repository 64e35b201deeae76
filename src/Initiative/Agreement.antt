-- ===== src/Initiative/Agreement.antt =====
-- What CreateOrUpdate writes of an initiative's references and parameters, and how Import compares it.
use policy_operator.Base.{
  Option-cases, inl, inr, false, String, Option, none, some, ◌≡◌, ◌↔◌, refl, List, [], ◌∷◌, ◌==◌,
  arith, eq_iff, if◌then◌else◌,
}
use policy_operator.Base.Lists.{length, lookup, insert, lookup-insert, Dict}
use policy_operator.Api.Initiative.{PolicyDefinitionReference, InitiativeParameter}
use policy_operator.Arm.{ArmDefinitionReference, ArmParameterDefinition}
use policy_operator.Initiative.Payload.{
  has_policy_definition_drift, build_policy_definition_refs, build_definition_ref_parameters,
  build_parameters, add_parameters, parameter_definition,
}

-- The ID that a live reference has, if any.
abbrev pub id_of : Option ArmDefinitionReference → Option String
id_of none = none
id_of (some r) = r.policy_definition_id

abbrev pub live_ids : List (Option ArmDefinitionReference) → List (Option String)
live_ids [] = []
live_ids (r ∷ rs) = id_of r ∷ live_ids rs

abbrev pub wanted_ids : List String → List (Option String)
wanted_ids [] = []
wanted_ids (id ∷ ids) = some id ∷ wanted_ids ids

-- Import reports no drift of the references exactly when the live IDs are the resolved ones, in order.
pub references_agree_iff :
    (live : List (Option ArmDefinitionReference)) (resolved : List String)
    → (has_policy_definition_drift live resolved ≡ false) ↔ (live_ids live ≡ wanted_ids resolved)
unfolding has_policy_definition_drift
references_agree_iff [] [] = ground arith
references_agree_iff [] (id ∷ ids) = ground arith
references_agree_iff (r ∷ rs) [] = ground arith
references_agree_iff (none ∷ rs) (id ∷ ids) = ground arith
references_agree_iff (some r ∷ rs) (id ∷ ids) = elim (Option-cases r.policy_definition_id) [
  | inl missing ↦ rw missing (ground arith)
  | inr (live, e) ↦ rw e (ground (arith, eq_iff live id, references_agree_iff rs ids))
]

-- With as many resolved IDs as references the references are built without a panic, and compared
-- with these IDs they show no drift.
pub built_references_agree :
    (refs : List PolicyDefinitionReference) (resolved : List String)
    → length refs ≡ length resolved
    → (built : List (Option ArmDefinitionReference)) × (build_policy_definition_refs refs resolved
        ≡ some built)
      × (has_policy_definition_drift built resolved ≡ false)
unfolding build_policy_definition_refs has_policy_definition_drift
built_references_agree [] [] h = ([], refl, refl)
built_references_agree [] (id ∷ ids) h = ground arith
built_references_agree (ref ∷ refs) [] h = ground arith
built_references_agree (ref ∷ refs) (id ∷ ids) h =
    let (built, e, same) = built_references_agree refs ids (omega arith) in
    (
      some (record {
        policy_definition_id = some id;
        parameters = build_definition_ref_parameters ref.parameters;
      })
          ∷ built,
      rw e,
      rw same (ground (arith, eq_iff id id)),
    )

abbrev later : Option InitiativeParameter → Option InitiativeParameter → Option InitiativeParameter
later (some p) q = some p
later none q = q

-- The last parameter of a name.
abbrev pub last_named : String → List InitiativeParameter → Option InitiativeParameter
last_named name [] = none
last_named name (p ∷ ps) = later (last_named name ps) (if p.name == name then some p else none)

abbrev pub written : Option InitiativeParameter → Option ArmParameterDefinition
written none = none
written (some p) = some (parameter_definition p)

abbrev or_before :
    Option ArmParameterDefinition → Option ArmParameterDefinition → Option ArmParameterDefinition
or_before (some d) e = some d
or_before none e = e

lookup-add_parameters :
    (name : String) (m : Dict ArmParameterDefinition) (ps : List InitiativeParameter)
    → lookup name (add_parameters m ps) ≡ or_before (written (last_named name ps)) (lookup name m)
unfolding add_parameters
lookup-add_parameters name m [] = refl
lookup-add_parameters name m (p ∷ ps) =
    rw (lookup-add_parameters name (insert p.name (parameter_definition p) m) ps, lookup-insert)
      (ground arith)

-- Under each name the written parameters have the definition of the last parameter of that name,
-- and none without one.
pub lookup-build_parameters :
    (name : String) (ps : List InitiativeParameter)
    → lookup name (build_parameters ps) ≡ written (last_named name ps)
unfolding build_parameters
lookup-build_parameters name ps =
    rw (lookup-add_parameters name [] ps) (unfold lookup in ground arith)
