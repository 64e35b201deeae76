-- ===== src/Initiative/ImportIds.antt =====
-- Reading the import IDs of initiative resources, and the name that a recorded ID is deleted under.
use policy_operator.Base.{String, ◌<>◌, ◌≡◌, List, [], ◌∷◌, false, arith}
use policy_operator.Base.Lists.{All}
use policy_operator.Base.Text.{NoSlash, equal_fold, last_segment-append}
use policy_operator.Failure.{ok}
use policy_operator.Common.Paths.{not_empty, path_of, split-path_of}
use policy_operator.Api.Initiative.{AzurePolicyInitiative}
use policy_operator.Initiative.Service.{parse_initiative_import_id, deleted_name}

abbrev group_segments : (group name : String) → List String
group_segments group name =
    "providers" ∷ "Microsoft.Management" ∷ "managementGroups" ∷ group ∷ "providers"
    ∷ "Microsoft.Authorization" ∷ "policySetDefinitions" ∷ name ∷ []

abbrev pub group_id : (group name : String) → String
group_id group name = path_of (group_segments group name)

abbrev subscription_segments : (subscription name : String) → List String
subscription_segments subscription name =
    "subscriptions" ∷ subscription ∷ "providers" ∷ "Microsoft.Authorization"
    ∷ "policySetDefinitions" ∷ name ∷ []

abbrev pub subscription_id : (subscription name : String) → String
subscription_id subscription name = path_of (subscription_segments subscription name)

-- The ID of an initiative at a management group parses to its name and group, if neither has a
-- slash and the group does not fold to policySetDefinitions.
parse_initiative_import_id-group_id :
    (group name : String)
    → NoSlash group
    → NoSlash name
    → equal_fold group "policySetDefinitions" ≡ false
    → parse_initiative_import_id (group_id group name) ≡ ok (name, group)
unfolding parse_initiative_import_id equal_fold
parse_initiative_import_id-group_id group name g n other =
    let plain : All NoSlash (group_segments group name) = (
      omega arith,
      (omega arith, (omega arith, (g, (omega arith, (omega arith, (omega arith, (n, tt))))))),
    ) in
    rw (split-path_of (group_segments group name) plain) (simp other)

-- The ID of a resource at a subscription is read back as its name, with no group, unless the
-- subscription is called like a segment that the search stops at.
pub parse_initiative_import_id-subscription_id :
    (subscription name : String)
    → NoSlash subscription
    → NoSlash name
    → equal_fold subscription "policySetDefinitions" ≡ false
    → equal_fold subscription "managementGroups" ≡ false
    → parse_initiative_import_id (subscription_id subscription name) ≡ ok (name, "")
unfolding parse_initiative_import_id equal_fold
parse_initiative_import_id-subscription_id subscription name g n other group =
    let plain : All NoSlash (subscription_segments subscription name) =
      (omega arith, (g, (omega arith, (omega arith, (omega arith, (n, tt)))))) in
    rw (split-path_of (subscription_segments subscription name) plain) (simp (other, group))

-- An object whose recorded ID ends in a name is deleted under that name.
pub deleted_name_of_initiative_id :
    (initiative : AzurePolicyInitiative) (scope name : String)
    → initiative.status.initiative_id ≡ scope <> String.◌∷◌ "/" name
    → NoSlash name
    → deleted_name initiative ≡ name
unfolding deleted_name
deleted_name_of_initiative_id initiative scope name recorded n =
    rw (recorded, not_empty scope name, last_segment-append scope name n)
