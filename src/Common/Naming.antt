-- ===== src/Common/Naming.antt =====
-- The Azure name and place that a resource is written to, and the answers to a lookup by name.
use policy_operator.Base.{Bool, String, Option, none, some, ◌||◌, ◌==◌, ◌/=◌, if◌then◌else◌}
use policy_operator.Base.Text.{lower_contains}
use policy_operator.Api.Meta.{
  ObjectMeta, annotation, annotation_import_mode, annotation_import_name, import_mode_only_once,
  import_mode_reconcile_only,
}
use policy_operator.Arm.{Place, at_subscription, at_management_group}

-- The name of the custom resource, or for an imported one the annotation import-name.
unfoldable pub target_name : ObjectMeta → String
target_name meta =
    if annotation meta annotation_import_mode == import_mode_reconcile_only
      || annotation meta annotation_import_mode == import_mode_only_once
    then annotation meta annotation_import_name
    else meta.name

unfoldable pub place_of : String → Place
place_of management_group_id =
    if management_group_id /= "" then at_management_group management_group_id else at_subscription

-- A pointer to a text, where nil reads as "".
abbrev pub or_empty : Option String → String
or_empty none = ""
or_empty (some s) = s

-- isNotFound of the initiative and assignment services
unfoldable pub is_not_found : String → Bool
unfolding lower_contains
is_not_found text = lower_contains text "404" || lower_contains text "not found"
