-- ===== src/Tests/Common.antt =====
-- The theorems about metadata and live definitions at concrete inputs.
use policy_operator.Base.{
  arith, String, some, [], ◌==◌, ◌≡◌, ◌≢◌, ◌↔◌, refl, ne_of_differ, if◌then◌else◌,
}
use policy_operator.Value.{Fields, end, field, object, text, null, field_at, decodes}
use policy_operator.World.Go.{returned, panicked}
use policy_operator.Common.Metadata.{build_metadata}
use policy_operator.Common.Metadata.Version.{build_metadata-version, build_metadata-panics_iff}

abbrev category : Fields
category = field "category" (text "Tags") (field "version" (text "0.9.0") end)

build_metadata-version_example :
    (written : Fields) × (build_metadata (some (decodes (object category))) "1.0.0" []
      ≡ (returned (object written), []))
    × ((k : String)
        → field_at k written
          ≡ (if "version" == k then some (text "1.0.0") else field_at k category))
build_metadata-version_example =
    build_metadata-version (some (decodes (object category))) "1.0.0" [] (ne_of_differ refl)
      (ground arith)

abbrev version : String
version = "1.0.0"

build_metadata-panics_iff_example :
    ((build_metadata (some (decodes null)) version []).0 ≡ panicked)
    ↔ ((some (decodes null) ≡ some (decodes null)) × (version ≢ ""))
build_metadata-panics_iff_example = build_metadata-panics_iff (some (decodes null)) version []
