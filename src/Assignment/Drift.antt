-- ===== src/Assignment/Drift.antt =====
-- internal/service/policyassignment/assingment.go: the drift that Import reports.
pub mod Sets
use policy_operator.Base.{
  Bool, String, Option, none, some, List, [], ◌∷◌, ◌++◌, ◌/=◌, ◌&&◌, not, if◌then◌else◌,
}
use policy_operator.Base.{same}
use policy_operator.Base.Lists.{length, all, contains}
use policy_operator.Base.Text.{equal_fold}
use policy_operator.Api.Assignment.{AzurePolicyAssignmentSpec}
use policy_operator.Arm.{ArmAssignment}
use policy_operator.Common.Drift.{drift_of}

-- The keys of the map[string]bool that a loop over the list fills.
unfoldable pub as_set : List String → List String
as_set [] = []
as_set (s ∷ ss) = let rest = as_set ss in if contains rest s then rest else s ∷ rest

-- nil entries are skipped
abbrev pub present : List (Option String) → List String
present [] = []
present (none ∷ ss) = present ss
present (some s ∷ ss) = s ∷ present ss

-- Compared as sets: by their sizes, then key by key.
unfoldable pub scopes_differ : List (Option String) → List String → Bool
unfolding as_set
scopes_differ live desired =
    let lives = as_set (present live) in
    let wanted = as_set desired in
    if same (length lives) (length wanted) then not (all (contains lives) wanted) else Bool.true

-- The comparison of policyDefinitionId folds case, and is left out for an empty ID.
abbrev drift_of_id : Option String → String → List String
drift_of_id none id = []
drift_of_id (some live) id =
    if id /= "" && not (equal_fold live id) then "policyDefinitionId" ∷ [] else []

unfoldable pub drift_fields :
    Option ArmAssignment → AzurePolicyAssignmentSpec → String → List String
unfolding drift_of scopes_differ equal_fold
drift_fields none spec id = []
drift_fields (some live) spec id =
    drift_of "displayName" live.display_name spec.display_name
    ++ (drift_of "description" live.description spec.description
        ++ (drift_of_id live.policy_definition_id id
            ++ (drift_of "enforcementMode" live.enforcement_mode spec.enforcement_mode
                ++ (if scopes_differ live.not_scopes spec.not_scopes
                    then "notScopes" ∷ []
                    else []))))
