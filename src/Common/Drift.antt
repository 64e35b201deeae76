-- ===== src/Common/Drift.antt =====
-- Comparing a live field with the spec.
use policy_operator.Base.{
  ◌≡◌, ◌↔◌, ◌++◌, arith, eq_iff, String, Option, none, some, List, [], ◌∷◌, ◌/=◌, if◌then◌else◌,
}

-- `if live != nil && *live != desired { driftFields = append(driftFields, name) }`
unfoldable pub drift_of : String → Option String → String → List String
drift_of name none desired = []
drift_of name (some live) desired = if live /= desired then name ∷ [] else []

-- A live field that is set has the spec's value.
abbrev pub Agrees : Option String → String → Type 0
Agrees none desired = Unit
Agrees (some live) desired = live ≡ desired

pub drift_of_iff :
    (name : String) (live : Option String) (desired : String)
    → (drift_of name live desired ≡ []) ↔ Agrees live desired
unfolding drift_of
drift_of_iff name none desired = ground arith
drift_of_iff name (some live) desired = ground (arith, eq_iff live desired)

-- A concatenation is empty exactly when both lists are.
pub append-empty_iff {ℓ} : {A : Type ℓ} (xs ys : List A) → (xs ++ ys ≡ []) ↔ ((xs ≡ []) × (ys ≡ []))
append-empty_iff [] ys = ground arith
append-empty_iff (x ∷ xs) ys = ground arith
