-- ===== src/Common/Metadata.antt =====
-- buildMetadata of the definition and initiative services.
pub mod Version
use policy_operator.Base.{String, Option, none, some, ◌==◌, if◌then◌else◌}
use policy_operator.Value.{Value, null, text, Fields, end, field, object, assign}
use policy_operator.Value.{RawExtension, unmarshal_map}
use policy_operator.World.Go.{Go, pure, panic}

-- `meta` after json.Unmarshal: a failure leaves the empty map, and `null` the nil map.
abbrev pub decoded : Option (Option Fields) → Option Fields
decoded none = some end
decoded (some m) = m

abbrev pub raw_fields : Option RawExtension → Option Fields
raw_fields none = some end
raw_fields (some raw) = decoded (unmarshal_map raw)

-- `meta["version"] = version` panics on the nil map.
abbrev put_version : String → Option Fields → Option (Option Fields)
put_version version none = if version == "" then some none else none
put_version version (some m) =
    if version == "" then some (some m) else some (some (assign "version" (text version) m))

-- `if len(meta) == 0 { return nil }`
abbrev non_empty : Option Fields → Value
non_empty none = null
non_empty (some end) = null
non_empty (some (field k v m)) = object (field k v m)

abbrev finish : Option (Option Fields) → Go Value
finish none = panic
finish (some m) = pure (non_empty m)

unfoldable pub build_metadata : Option RawExtension → String → Go Value
unfolding assign pure panic
build_metadata raw version = finish (put_version version (raw_fields raw))
