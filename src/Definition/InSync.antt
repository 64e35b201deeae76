-- ===== src/Definition/InSync.antt =====
-- When the import of a definition reports that Azure agrees with the spec.
use policy_operator.Base.{
  String, Option, some, ◌≡◌, ◌↔◌, [], arith, eq_iff, ◌++◌, Option-cases, inl, inr,
}
use policy_operator.Failure.{ok}
use policy_operator.Api.Definition.{AzurePolicyDefinitionSpec}
use policy_operator.Arm.{ArmDefinition}
use policy_operator.World.{reply}
use policy_operator.Common.Drift.{drift_of, drift_of_iff, Agrees, append-empty_iff}
use policy_operator.Definition.Service.{judge_import, drift_fields}

no_drift_iff :
    (props : ArmDefinition) (spec : AzurePolicyDefinitionSpec)
    → (drift_fields props spec ≡ []) ↔ (
        Agrees props.display_name spec.display_name
        × Agrees props.description spec.description
        × Agrees props.mode spec.mode)
unfolding drift_fields
no_drift_iff props spec = ground (
  arith,
  drift_of_iff "displayName" props.display_name spec.display_name,
  drift_of_iff "description" props.description spec.description,
  drift_of_iff "mode" props.mode spec.mode,
  append-empty_iff (drift_of "displayName" props.display_name spec.display_name) (
      drift_of "description" props.description spec.description
      ++ drift_of "mode" props.mode spec.mode),
  append-empty_iff (drift_of "description" props.description spec.description)
      (drift_of "mode" props.mode spec.mode),
)

-- The import of a live definition with properties succeeds without drift exactly when its type is
-- Custom and its display name, description and mode, where set, are those of the spec.
pub import_in_sync_iff :
    (import_id : String) (spec : AzurePolicyDefinitionSpec) (id : Option String)
    (props : ArmDefinition)
    → (judge_import import_id spec (reply (record { id = id; properties = some props })) ≡ ok [])
      ↔ ((props.policy_type ≡ some "Custom")
          × Agrees props.display_name spec.display_name
          × Agrees props.description spec.description
          × Agrees props.mode spec.mode)
unfolding judge_import
import_in_sync_iff import_id spec id props = elim (Option-cases props.policy_type) [
  | inl missing ↦ rw missing (ground arith)
  | inr (type, e) ↦ rw e (ground (arith, eq_iff type "Custom", no_drift_iff props spec))
]
