-- ===== src/Assignment/Drift/Sets.antt =====
-- The comparison of scopes decides whether two lists hold the same scopes.
use policy_operator.Base.{
  same, Bool, true, false, String, Option, ◌≡◌, ◌≢◌, ◌↔◌, refl, sym, ◌∙◌, suc, ◌≤◌, List, [], ◌∷◌,
  ◌==◌, not, arith, eq_iff, Bool-cases, inl, inr, if◌then◌else◌,
}
use policy_operator.Base.Lists.{length, contains, all}
use policy_operator.Assignment.Drift.{as_set, present, scopes_differ}

abbrev NodupTexts : List String → Type 0
NodupTexts [] = Unit
NodupTexts (s ∷ ss) = (contains ss s ≡ false) × NodupTexts ss

remove : String → List String → List String
remove x [] = []
remove x (s ∷ ss) = if s == x then ss else s ∷ remove x ss

length-remove :
    (x : String) (ss : List String) → contains ss x ≡ true → length ss ≡ suc (length (remove x ss))
unfolding remove
length-remove x [] h = ground arith
length-remove x (s ∷ ss) h = ground (arith, length-remove x ss)

contains-remove :
    (x y : String) (ss : List String)
    → y ≢ x
    → contains ss y ≡ true
    → contains (remove x ss) y ≡ true
unfolding remove
contains-remove x y [] n h = h
contains-remove x y (s ∷ ss) n h = ground (arith, contains-remove x y ss n, eq_iff s x, eq_iff s y)

-- A list without duplicates that is included in another is no longer than it.
length-le_of_included :
    (ss ls : List String)
    → NodupTexts ss
    → ((y : String) → contains ss y ≡ true → contains ls y ≡ true)
    → length ss ≤ length ls
length-le_of_included [] ls d h = omega arith
length-le_of_included (s ∷ ss) ls (fresh, d) h =
    let here : contains ls s ≡ true = h s (ground (arith, eq_iff s s)) in
    let rest : length ss ≤ length (remove s ls) = length-le_of_included ss (remove s ls) d (λ y m.
      contains-remove s y ls (λ e. ground (arith, e, fresh, m)) (h y (ground (arith, m)))) in
    omega (arith, length-remove s ls here)

contains-as_set : (ss : List String) (x : String) → contains (as_set ss) x ≡ contains ss x
unfolding as_set
contains-as_set [] x = refl
contains-as_set (s ∷ ss) x = ground (arith, contains-as_set ss x, contains-as_set ss s, eq_iff s x)

as_set-NodupTexts : (ss : List String) → NodupTexts (as_set ss)
unfolding as_set
as_set-NodupTexts [] = tt
as_set-NodupTexts (s ∷ ss) = ground (arith, as_set-NodupTexts ss)

all-contains_iff :
    (ls ss : List String)
    → (all (contains ls) ss ≡ true) ↔ ((y : String) → contains ss y ≡ true → contains ls y ≡ true)
all-contains_iff ls [] = (λ h y m. ground arith, λ h. refl)
all-contains_iff ls (s ∷ ss) = (
  λ h y m. ground (arith, eq_iff s y, (all-contains_iff ls ss).0 (ground arith) y),
  λ h. ground (
    arith,
    h s (ground (arith, eq_iff s s)),
    (all-contains_iff ls ss).1 (λ y m. h y (ground (arith, m))),
  ),
)

-- Equal lengths and one inclusion of lists without duplicates give the other inclusion.
included_back :
    (ss ls : List String)
    → NodupTexts ss
    → length ls ≡ length ss
    → ((y : String) → contains ss y ≡ true → contains ls y ≡ true)
    → (x : String) → contains ls x ≡ true
    → contains ss x ≡ true
included_back ss ls d e h x m = elim (Bool-cases (contains ss x)) [
  | inl yes' ↦ yes'
  | inr missing ↦
      let shorter : length ss ≤ length (remove x ls) =
        length-le_of_included ss (remove x ls) d
          (λ y k. contains-remove x y ls (λ p. ground (arith, p, k, missing)) (h y k)) in
      absurd (omega (arith, length-remove x ls m))
]

eq_of_implications : (a b : Bool) → (a ≡ true → b ≡ true) → (b ≡ true → a ≡ true) → a ≡ b
eq_of_implications true b f g = sym (f refl)
eq_of_implications false true f g = g refl
eq_of_implications false false f g = refl

abbrev Included : List String → List String → Type 0
Included ss ls = (y : String) → contains ss y ≡ true → contains ls y ≡ true

module _ (ls ss : List String) (dl : NodupTexts ls) (ds : NodupTexts ss) where
  abbrev sets_differ : Bool
  sets_differ = if same (length ls) (length ss) then not (all (contains ls) ss) else true

  same_scopes : sets_differ ≡ false → (length ls ≡ length ss) × Included ss ls
  same_scopes h =
      let both : all (contains ls) ss ≡ true = ground arith in
      (ground arith, (all-contains_iff ls ss).0 both)

  no_difference : Included ss ls → Included ls ss → sets_differ ≡ false
  no_difference f g = ground (
    arith,
    length-le_of_included ss ls ds f,
    length-le_of_included ls ss dl g,
    (all-contains_iff ls ss).1 f,
  )

-- The comparison of notScopes finds no drift exactly when the live list, its nil entries left out,
-- and the spec have the same members.
pub scopes_agree_iff :
    (live : List (Option String)) (desired : List String)
    → (scopes_differ live desired ≡ false)
      ↔ ((s : String) → contains (present live) s ≡ contains desired s)
unfolding scopes_differ
scopes_agree_iff live desired =
    let ls = as_set (present live) in
    let ss = as_set desired in
    let dl = as_set-NodupTexts (present live) in
    let ds = as_set-NodupTexts desired in
    (
      λ h s.
          let (e, f) = same_scopes ls ss dl ds h in
          let g : Included ls ss = included_back ss ls ds e f in
          sym (contains-as_set (present live) s)
          ∙ eq_of_implications (contains ls s) (contains ss s) (g s) (f s)
          ∙ contains-as_set desired s,
      λ h.
          no_difference ls ss dl ds (λ y m. rw (contains-as_set, h, ← contains-as_set) m)
            (λ y m. rw (contains-as_set, ← h, ← contains-as_set) m),
    )
