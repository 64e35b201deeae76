-- ===== src/Common/Metadata/Version.antt =====
-- The version in the metadata that is written to Azure.
use policy_operator.Base.{
  refl, Bool-cases, String, ◌≡◌, ◌≢◌, ◌↔◌, Option, some, none, ◌==◌, if◌then◌else◌, arith, eq_iff,
  Option-cases, inl, inr,
}
use policy_operator.Value.{
  Value, text, Fields, end, field, object, field_at, assign, field_at-assign, RawExtension,
  malformed, decodes, null,
}
use policy_operator.World.{Trace}
use policy_operator.World.Go.{returned, panicked}
use policy_operator.Common.Metadata.{build_metadata, raw_fields}

-- assigning leaves a field
assign-field :
    (k : String) (v : Value) (m : Fields)
    → (j : String) × (w : Value) × (rest : Fields) × (assign k v m ≡ field j w rest)
unfolding assign
assign-field k v end = (k, v, end, refl)
assign-field k v (field j w m) = elim (Bool-cases (j == k)) [
  | inl same ↦ (k, v, m, rw same)
  | inr other ↦ (j, w, assign k v m, rw other)
]

-- Only the JSON null leaves the nil map.
raw_fields-nil : (raw : Option RawExtension) → (raw_fields raw ≡ none) ↔ (raw ≡ some (decodes null))
raw_fields-nil none = ground arith
raw_fields-nil (some (malformed bytes)) = ground arith
raw_fields-nil (some (decodes v)) = ground arith

panics_at_nil :
    (raw : Option RawExtension) (version : String) (t : Trace)
    → ((build_metadata raw version t).0 ≡ panicked) ↔ ((raw_fields raw ≡ none) × (version ≢ ""))
unfolding build_metadata
panics_at_nil raw version t = elim (Option-cases (raw_fields raw)) [
  | inl nil_map ↦ rw nil_map (ground (arith, eq_iff version ""))
  | inr (end, e) ↦ rw e (ground (arith, eq_iff version ""))
  | inr (field k v m, e) ↦ rw e (ground (arith, eq_iff version ""))
]

-- Building the metadata panics exactly when raw metadata is given, its bytes decode to the JSON
-- null, and the version is not empty.
pub build_metadata-panics_iff :
    (raw : Option RawExtension) (version : String) (t : Trace)
    → ((build_metadata raw version t).0 ≡ panicked) ↔ ((raw ≡ some (decodes null)) × (version ≢ ""))
build_metadata-panics_iff raw version t =
    let (to, from) = panics_at_nil raw version t in
    let (is_null, is_nil) = raw_fields-nil raw in
    (λ e. let (nil, given) = to e in (is_null nil, given), λ h. from (is_nil h.0, h.1))

-- The keys that raw metadata gives: those of a JSON object, and none otherwise.
abbrev pub given_fields : Option RawExtension → Fields
given_fields (some (decodes (object m))) = m
given_fields _ = end

raw_fields-given :
    (raw : Option RawExtension)
    → raw ≢ some (decodes null)
    → raw_fields raw ≡ some (given_fields raw)
raw_fields-given none n = ground arith
raw_fields-given (some (malformed bytes)) n = ground arith
raw_fields-given (some (decodes v)) n = ground arith

-- With a version that is not empty, where the raw metadata is not given as bytes that decode to the
-- JSON null, the metadata written is an object with that version and, under every other key, what
-- the raw metadata has if it is a JSON object, and nothing otherwise.
pub build_metadata-version :
    (raw : Option RawExtension) (version : String) (t : Trace)
    → version ≢ ""
    → raw ≢ some (decodes null)
    → (written : Fields) × (build_metadata raw version t ≡ (returned (object written), t))
      × ((k : String)
          → field_at k written
            ≡ (if "version" == k then some (text version) else field_at k (given_fields raw)))
unfolding build_metadata
build_metadata-version raw version t given decoded =
    let m = given_fields raw in
    let (j, w, rest, e) = assign-field "version" (text version) m in
    (
      assign "version" (text version) m,
      rw (raw_fields-given raw decoded) (ground (arith, eq_iff version "", e)),
      λ k. field_at-assign "version" k (text version) m,
    )
