-- ===== src/Base/Tests.antt =====
-- Boolean tests and case splits.
use Prim.Native.Nat.{ℕ, compare, Ordering}
use Prim.Native.String.{String}
use mathlib.Core.Path.{◌≡◌, refl}
use mathlib.Core.Bool.{Bool, true, false, not}
use text.Mathlib.TextEquality.{eq_iff}
use mathlib.Core.Logic.{◌⊎◌, ◌≢◌, inl, inr}
use mathlib.Core.Option.{Option, none, some}
pub use text.Mathlib.Text.{◌==◌}

infix 1 if◌then◌else◌
abbrev pub if◌then◌else◌ {ℓ} : {A : Type ℓ} → Bool → A → A → A
if true then x else y = x
if false then x else y = y

infix 50 ◌/=◌
abbrev pub ◌/=◌ : String → String → Bool
s /= t = not (s == t)

-- `==` of two numbers.
abbrev pub same : ℕ → ℕ → Bool
same a b = elim (compare a b) [ Ordering.eq ↦ true | _ ↦ false ]

abbrev pub leb : ℕ → ℕ → Bool
leb a b = elim (compare a b) [ Ordering.gt ↦ false | _ ↦ true ]

-- `p != nil`
abbrev pub is_some {ℓ} : {A : Type ℓ} → Option A → Bool
is_some none = false
is_some (some a) = true

pub Bool-cases : (b : Bool) → (b ≡ true) ⊎ (b ≡ false)
Bool-cases true = inl refl
Bool-cases false = inr refl

pub Option-cases {ℓ} : {A : Type ℓ} (o : Option A) → (o ≡ none) ⊎ ((a : A) × (o ≡ some a))
Option-cases none = inl refl
Option-cases (some a) = inr (a, refl)

-- Two texts that compare as different.
pub ne_of_differ : {s t : String} → (s == t) ≡ false → s ≢ t
ne_of_differ {s} {t} h e = cc ((eq_iff s t).1 e)
