-- ===== src/Common/Selectors.antt =====
-- The resource selectors of assignments and exemptions, as the SDK takes them.
use policy_operator.Base.{none, some, List, [], ◌∷◌, ◌==◌, if◌then◌else◌}
use policy_operator.Api.Assignment.{SelectorSpec, ResourceSelectorSpec}
use policy_operator.Arm.{ArmSelector, ArmResourceSelector}

-- `switch sel.Operator`: an operator that is neither leaves both lists unset.
unfoldable pub arm_selector : SelectorSpec → ArmSelector
arm_selector sel = record {
  kind = some sel.property;
  is_in = if sel.operator == "In" then some sel.values else none;
  not_in = if sel.operator == "notIn" then some sel.values else none;
}

unfoldable pub arm_selectors : List SelectorSpec → List ArmSelector
unfolding arm_selector
arm_selectors [] = []
arm_selectors (sel ∷ sels) = arm_selector sel ∷ arm_selectors sels

unfoldable pub arm_resource_selectors : List ResourceSelectorSpec → List ArmResourceSelector
unfolding arm_selectors
arm_resource_selectors [] = []
arm_resource_selectors (rs ∷ rest) =
    record { name = some rs.name; selectors = arm_selectors rs.selectors }
    ∷ arm_resource_selectors rest
