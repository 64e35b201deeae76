-- ===== src/Base/Lists.antt =====
-- Lists with native lengths, Boolean membership of texts, and maps keyed by texts.
use policy_operator.Base.Tests.{if◌then◌else◌, ◌==◌}
use Prim.Native.Nat.{ℕ, suc}
use Prim.Native.String.{String}
use mathlib.Core.Path.{◌≡◌, refl, ap}
use mathlib.Core.Logic.{◌≢◌}
use mathlib.Core.Bool.{Bool, true, false, ◌||◌, ◌&&◌}
use mathlib.Core.Option.{Option, none, some}
use mathlib.Core.List.{List, [], ◌∷◌}
use native.Mathlib.Omega.{arith}
use text.Mathlib.TextEquality.{eq_iff}

module _ {ℓ} {A : Type ℓ} where
  abbrev pub length : List A → ℕ
  length [] = 0
  length (x ∷ xs) = suc (length xs)

  abbrev pub all : (A → Bool) → List A → Bool
  all p [] = true
  all p (x ∷ xs) = p x && all p xs

module _ {ℓ κ} {A : Type ℓ} (P : A → Type κ) where
  abbrev pub All : List A → Type κ
  All [] = Unit
  All (x ∷ xs) = P x × All xs

abbrev pub contains : List String → String → Bool
contains [] s = false
contains (x ∷ xs) s = x == s || contains xs s

-- A Go map from strings as an association list; `get` answers the zero value's place by `none`.
abbrev pub Dict {ℓ} : Type ℓ → Type ℓ
Dict V = List (String × V)

module _ {ℓ} {V : Type ℓ} where
  unfoldable pub lookup : String → Dict V → Option V
  lookup key [] = none
  lookup key (entry ∷ rest) = if entry.0 == key then some (entry.1) else lookup key rest

  -- `m[key] = new`
  unfoldable pub insert : String → V → Dict V → Dict V
  insert key new [] = (key, new) ∷ []
  insert key new (entry ∷ rest) =
      let below = insert key new rest in if entry.0 == key then (key, new) ∷ rest else entry ∷ below

  pub lookup-insert :
      (key sought : String) (new : V) (dict : Dict V)
      → lookup sought (insert key new dict)
        ≡ (if key == sought then some new else lookup sought dict)
  unfolding lookup insert
  lookup-insert key sought new [] = refl
  lookup-insert key sought new (entry ∷ rest) = ground (
    arith,
    lookup-insert key sought new rest,
    eq_iff key sought,
    eq_iff (entry.0) key,
    eq_iff (entry.0) sought,
  )

-- `m[k]` of a map to strings: a missing key reads as "".
unfoldable pub text_at : Dict String → String → String
text_at [] k = ""
text_at ((j, v) ∷ m) k = if j == k then v else text_at m k

-- No list is its own tail.
pub ne-cons {ℓ} : {A : Type ℓ} (x : A) (xs : List A) → xs ≢ x ∷ xs
ne-cons x xs h = let e : length xs ≡ suc (length xs) = ap length h in omega arith
