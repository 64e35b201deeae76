-- ===== src/Initiative/InSync.antt =====
-- When the import of an initiative reports that Azure agrees with the spec.
use policy_operator.Base.{
  String, List, Option, some, ◌≡◌, ◌↔◌, [], ◌∷◌, arith, eq_iff, ◌++◌, Option-cases, inl, inr,
  if◌then◌else◌,
}
use policy_operator.Failure.{ok}
use policy_operator.Api.Initiative.{AzurePolicyInitiativeSpec}
use policy_operator.Arm.{ArmSetDefinition}
use policy_operator.World.{reply}
use policy_operator.Common.Drift.{drift_of, drift_of_iff, Agrees, append-empty_iff}
use policy_operator.Initiative.Payload.{has_policy_definition_drift}
use policy_operator.Initiative.Agreement.{references_agree_iff, live_ids, wanted_ids}
use policy_operator.Initiative.Service.{judge_import, drift_fields}

no_drift_iff :
    (props : ArmSetDefinition) (spec : AzurePolicyInitiativeSpec) (resolved : List String)
    → (drift_fields props spec resolved ≡ []) ↔ (
        Agrees props.display_name spec.display_name
        × Agrees props.description spec.description
        × (live_ids props.policy_definitions ≡ wanted_ids resolved))
unfolding drift_fields
no_drift_iff props spec resolved =
    let references : List String =
      if has_policy_definition_drift props.policy_definitions resolved
      then "policyDefinitions" ∷ []
      else [] in
    ground (
      arith,
      drift_of_iff "displayName" props.display_name spec.display_name,
      drift_of_iff "description" props.description spec.description,
      references_agree_iff props.policy_definitions resolved,
      append-empty_iff (drift_of "displayName" props.display_name spec.display_name)
          (drift_of "description" props.description spec.description ++ references),
      append-empty_iff (drift_of "description" props.description spec.description) references,
    )

-- The import of a live initiative with properties succeeds without drift exactly when its type is
-- Custom, its display name and description, where set, are those of the spec, and its references
-- have the resolved IDs in order.
pub initiative_in_sync_iff :
    (import_id : String) (spec : AzurePolicyInitiativeSpec) (resolved : List String)
    (id : Option String) (props : ArmSetDefinition)
    → (judge_import import_id spec resolved (reply (record { id = id; properties = some props }))
        ≡ ok [])
      ↔ ((props.policy_type ≡ some "Custom")
          × Agrees props.display_name spec.display_name
          × Agrees props.description spec.description
          × (live_ids props.policy_definitions ≡ wanted_ids resolved))
unfolding judge_import
initiative_in_sync_iff import_id spec resolved id props = elim (Option-cases props.policy_type) [
  | inl missing ↦ rw missing (ground arith)
  | inr (type, e) ↦ rw e (ground (arith, eq_iff type "Custom", no_drift_iff props spec resolved))
]
