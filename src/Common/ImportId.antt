-- ===== src/Common/ImportId.antt =====
-- Reading a name and a management group out of an Azure resource ID.
use policy_operator.Base.{String, Option, none, some, List, [], ◌∷◌, if◌then◌else◌}
use policy_operator.Base.Text.{split_slash, equal_fold}
use policy_operator.Failure.{Result, ok, err, Error}

-- The loop `for i, part := range parts`: what follows the first part that folds to `key` and has
-- a successor.
unfoldable pub part_after : String → List String → Option String
part_after key [] = none
part_after key (part ∷ []) = none
part_after key (part ∷ next ∷ parts) =
    let later = part_after key (next ∷ parts) in if equal_fold part key then some next else later

abbrev or_no_group : Option String → String
or_no_group none = ""
or_no_group (some group) = group

abbrev named : Option String → Option String → Error → Result (String × String)
named none group e = err e
named (some name) group e = ok (name, or_no_group group)

-- The name behind the type's segment, and the management group, "" without one.
unfoldable pub parse_import_id : String → Error → String → Result (String × String)
unfolding part_after split_slash
parse_import_id segment e import_id =
    let parts = split_slash import_id in
    named (part_after segment parts) (part_after "managementGroups" parts) e
