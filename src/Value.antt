-- ===== src/Value.antt =====
-- Values of type interface{}, as encoding/json decodes them, and the raw JSON fields of the
-- custom resources (runtime.RawExtension).
use policy_operator.Base.{Bool, String, ◌≡◌, Option, none, some, List, [], ◌∷◌, ◌==◌}
use policy_operator.Base.{arith, eq_iff, if◌then◌else◌}

-- `null` is the nil interface. A number keeps its decimal text.
mutual
  pub data Value : Type 0 where
    null : Value
    boolean : Bool → Value
    number : String → Value
    text : String → Value
    array : Values → Value
    object : Fields → Value

  pub data Values : Type 0 where
    nil : Values
    cons : Value → Values → Values

  -- map[string]interface{}
  pub data Fields : Type 0 where
    end : Fields
    field : String → Value → Fields → Fields

unfoldable pub field_at : String → Fields → Option Value
field_at k end = none
field_at k (field j v m) = if j == k then some v else field_at k m

-- `m[k] = v`
unfoldable pub assign : String → Value → Fields → Fields
assign k v end = field k v end
assign k v (field j w m) = if j == k then field k v m else field j w (assign k v m)

pub field_at-assign :
    (k j : String) (v : Value) (m : Fields)
    → field_at j (assign k v m) ≡ (if k == j then some v else field_at j m)
unfolding field_at assign
field_at-assign k j v end = ground (arith, eq_iff k j)
field_at-assign k j v (field i w m) =
    ground (arith, eq_iff k j, eq_iff i k, eq_iff i j, field_at-assign k j v m)

abbrev pub texts : List String → Values
texts [] = nil
texts (s ∷ ss) = cons (text s) (texts ss)

-- The bytes of a raw field: what is no JSON, or what the JSON decodes to.
pub data RawExtension : Type 0 where
  malformed : String → RawExtension
  decodes : Value → RawExtension

-- json.Unmarshal into an interface{}
abbrev pub unmarshal : RawExtension → Option Value
unmarshal (malformed bytes) = none
unmarshal (decodes v) = some v

-- json.Unmarshal into a map[string]interface{}: `null` succeeds and gives the nil map.
abbrev pub unmarshal_map : RawExtension → Option (Option Fields)
unmarshal_map (decodes null) = some none
unmarshal_map (decodes (object m)) = some (some m)
unmarshal_map _ = none
