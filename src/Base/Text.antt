-- ===== src/Base/Text.antt =====
-- The functions of package strings that the code calls: Split at "/", EqualFold, ToLower and
-- Contains. A text is walked by code points; letters are folded where they are ASCII.
use policy_operator.Base.Tests.{if◌then◌else◌, same, leb, Bool-cases}
use Prim.Native.Nat.{ℕ, ◌+◌}
use Prim.Native.Char.{Char, code}
use Prim.Native.String.{String, ◌++◌ as ◌<>◌}
use mathlib.Core.Path.{◌≡◌, refl}
use mathlib.Core.Logic.{◌≢◌, ◌↔◌, inl, inr}
use mathlib.Core.Bool.{Bool, true, false, ◌&&◌, ◌||◌}
use mathlib.Core.List.{List, [], ◌∷◌, ◌++◌}
use native.Mathlib.Omega.{arith}
use text.Mathlib.TextLemmas.{nil-append, cons-append}

-- strings.Split(s, "/")
prepend : Char → List String → List String
prepend c [] = (String.◌∷◌ c String.[]) ∷ []
prepend c (p ∷ ps) = (String.◌∷◌ c p) ∷ ps

is_slash : Char → Bool
is_slash c = same (code c) b'/'

unfoldable pub split_slash : String → List String
unfolding prepend is_slash
split_slash String.[] = "" ∷ []
split_slash (String.◌∷◌ c s) =
    let rest = split_slash s in if is_slash c then "" ∷ rest else prepend c rest

last_of : String → List String → String
last_of s [] = s
last_of s (p ∷ ps) = last_of p ps

-- parts[len(parts)-1] of parts := strings.Split(s, "/")
unfoldable pub last_segment : String → String
unfolding split_slash last_of
last_segment s = last_of "" (split_slash s)

abbrev lower_code : ℕ → ℕ
lower_code c = if leb b'A' c && leb c b'Z' then c + 32 else c

-- strings.ToLower
unfoldable pub lower_codes : String → List ℕ
lower_codes String.[] = []
lower_codes (String.◌∷◌ c s) = lower_code (code c) ∷ lower_codes s

pub same_codes : List ℕ → List ℕ → Bool
same_codes [] [] = true
same_codes [] (d ∷ ds) = false
same_codes (c ∷ cs) [] = false
same_codes (c ∷ cs) (d ∷ ds) = same c d && same_codes cs ds

unfoldable pub equal_fold : String → String → Bool
unfolding lower_codes same_codes
equal_fold s t = same_codes (lower_codes s) (lower_codes t)

starts_with_codes : List ℕ → List ℕ → Bool
starts_with_codes cs [] = true
starts_with_codes [] (d ∷ ds) = false
starts_with_codes (c ∷ cs) (d ∷ ds) = same c d && starts_with_codes cs ds

contains_codes : List ℕ → List ℕ → Bool
contains_codes [] ds = starts_with_codes [] ds
contains_codes (c ∷ cs) ds = starts_with_codes (c ∷ cs) ds || contains_codes cs ds

abbrev codes : String → List ℕ
codes String.[] = []
codes (String.◌∷◌ c s) = code c ∷ codes s

-- strings.Contains(s, sub)
unfoldable pub contains_text : String → String → Bool
unfolding contains_codes starts_with_codes
contains_text s sub = contains_codes (codes s) (codes sub)

-- strings.Contains(strings.ToLower(s), sub)
unfoldable pub lower_contains : String → String → Bool
unfolding contains_codes starts_with_codes lower_codes
lower_contains s sub = contains_codes (lower_codes s) (codes sub)

-- Folding makes two texts equal exactly when their lower cases are.
same_codes_iff : (cs ds : List ℕ) → (same_codes cs ds ≡ true) ↔ (cs ≡ ds)
unfolding same_codes
same_codes_iff [] [] = ground arith
same_codes_iff [] (d ∷ ds) = ground arith
same_codes_iff (c ∷ cs) [] = ground arith
same_codes_iff (c ∷ cs) (d ∷ ds) = ground (arith, same_codes_iff cs ds)

module _ (s t : String) where
  pub equal_fold_iff : (equal_fold s t ≡ true) ↔ (lower_codes s ≡ lower_codes t)
  unfolding equal_fold
  equal_fold_iff = same_codes_iff (lower_codes s) (lower_codes t)

pub equal_fold_refl : (s : String) → equal_fold s s ≡ true
equal_fold_refl s = (equal_fold_iff s s).1 refl

-- No code point of the text is a slash.
abbrev pub NoSlash : String → Type 0
NoSlash String.[] = Unit
NoSlash (String.◌∷◌ c s) = (code c ≢ b'/') × NoSlash s

pub split_of_NoSlash : (s : String) → NoSlash s → split_slash s ≡ s ∷ []
unfolding split_slash
split_of_NoSlash String.[] h = refl
split_of_NoSlash (String.◌∷◌ c s) (n, h) = rw (split_of_NoSlash s h) (ground arith)

split-cons : (s : String) → (p : String) × (ps : List String) × (split_slash s ≡ p ∷ ps)
unfolding split_slash
split-cons String.[] = ("", [], refl)
split-cons (String.◌∷◌ c s) =
    let (p, ps, e) = split-cons s in
    elim (Bool-cases (is_slash c)) [
      | inl slash ↦ ("", p ∷ ps, rw (e, slash))
      | inr other ↦ (String.◌∷◌ c p, ps, rw (e, other))
    ]

prepend-append :
    (c : Char) (s : String) (ys : List String)
    → prepend c (split_slash s ++ ys) ≡ prepend c (split_slash s) ++ ys
unfolding prepend
prepend-append c s ys = let (p, ps, e) = split-cons s in rw e

-- Joining two texts by a slash joins their segments.
pub split-append :
    (s t : String) → split_slash (s <> String.◌∷◌ "/" t) ≡ split_slash s ++ split_slash t
unfolding split_slash
split-append String.[] t = rw nil-append
split-append (String.◌∷◌ c s) t =
    rw (cons-append, split-append s t)
      (elim (Bool-cases (is_slash c)) [
        | inl slash ↦ rw slash
        | inr other ↦ rw other (prepend-append c s (split_slash t))
      ])

last_of-append : (d p : String) (xs ys : List String) → last_of d (xs ++ p ∷ ys) ≡ last_of p ys
unfolding last_of
last_of-append d p [] ys = refl
last_of-append d p (x ∷ xs) ys = last_of-append x p xs ys

-- The last segment of a path that ends in a name is that name.
pub last_segment-append : (s t : String) → NoSlash t → last_segment (s <> String.◌∷◌ "/" t) ≡ t
unfolding last_segment
last_segment-append s t h =
    rw (split-append s t, split_of_NoSlash t h) (last_of-append "" t (split_slash s) [])

pub last_segment_of_NoSlash : (s : String) → NoSlash s → last_segment s ≡ s
unfolding last_segment
last_segment_of_NoSlash s h = rw (split_of_NoSlash s h)
