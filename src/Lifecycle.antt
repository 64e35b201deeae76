-- ===== src/Lifecycle.antt =====
-- The life of a managed object, as every controller is meant to lead it: the finalizer first, then the
-- Azure resource, and the finalizer only goes once the resource is taken care of.
use policy_operator.Base.{Bool, true, false, ◌≡◌, ◌⊎◌, inl, inr, refl, sym, ◌∙◌, Bool-cases, arith}

-- Whether the object is being deleted, holds the finalizer, and has the ID of an Azure resource.
pub data Phase : Type 0 where
  phase : (is_deleting is_held is_bound : Bool) → Phase

-- The steps that the abstract machine allows. `Cleared` is the condition for letting the object go.
pub data Allowed (Cleared : Type 0) : Phase → Phase → Type 0 where
  stay : {p : Phase} → Allowed Cleared p p
  mark : {h b : Bool} → Allowed Cleared (phase false h b) (phase true h b)
  hold : {b : Bool} → Allowed Cleared (phase false false b) (phase false true b)
  bind : {b : Bool} → Allowed Cleared (phase false true b) (phase false true true)
  release : {b : Bool} → Cleared → Allowed Cleared (phase true true b) (phase true false b)

-- A live object with an Azure resource holds the finalizer.
abbrev pub IsGuarded : Phase → Type 0
IsGuarded (phase false false true) = ⊥
IsGuarded _ = Unit

abbrev pub IsHeld : Phase → Type 0
IsHeld (phase d h b) = h ≡ true

abbrev pub IsGone : Phase → Type 0
IsGone (phase d h b) = d ≡ true

abbrev pub IsLoose : Phase → Type 0
IsLoose (phase d h b) = h ≡ false

abbrev pub IsBound : Phase → Type 0
IsBound (phase d h b) = b ≡ true

Allowed-IsGuarded : {C : Type 0} {p q : Phase} → Allowed C p q → IsGuarded p → IsGuarded q
Allowed-IsGuarded stay g = g
Allowed-IsGuarded mark g = tt
Allowed-IsGuarded hold g = tt
Allowed-IsGuarded bind g = tt
Allowed-IsGuarded (release c) g = tt

Allowed-IsBound : {C : Type 0} {p q : Phase} → Allowed C p q → IsBound p → IsBound q
Allowed-IsBound stay g = g
Allowed-IsBound mark g = g
Allowed-IsBound hold g = g
Allowed-IsBound bind g = refl
Allowed-IsBound (release c) g = g

-- A step either keeps the finalizer, or is a release: from a deleted phase, its condition met.
Allowed-IsHeld :
    {C : Type 0} {p q : Phase} → Allowed C p q → IsHeld p → IsHeld q ⊎ (IsGone p × C × IsLoose q)
Allowed-IsHeld stay g = inl g
Allowed-IsHeld mark g = inl g
Allowed-IsHeld hold g = inl refl
Allowed-IsHeld bind g = inl refl
Allowed-IsHeld (release c) g = inr (refl, c, refl)

-- The steps, from what changes of the three flags.
module _ {C : Type 0} {d h b d' h' b' : Bool} where
  pub to_stay : d' ≡ d → h' ≡ h → b' ≡ b → Allowed C (phase d h b) (phase d' h' b')
  to_stay same_d same_h same_b = rw (same_d, same_h, same_b) stay

  pub to_mark : d ≡ false → d' ≡ true → h' ≡ h → b' ≡ b → Allowed C (phase d h b) (phase d' h' b')
  to_mark live gone same_h same_b = rw (live, gone, same_h, same_b) mark

  pub to_hold :
      d ≡ false → h ≡ false → d' ≡ d → h' ≡ true → b' ≡ b → Allowed C (phase d h b) (phase d' h' b')
  to_hold live missing same_d held same_b = rw (same_d, live, missing, held, same_b) hold

  pub to_bind :
      d ≡ false → h ≡ true → d' ≡ d → h' ≡ h → b' ≡ true → Allowed C (phase d h b) (phase d' h' b')
  to_bind live held same_d same_h bound = rw (same_d, same_h, live, held, bound) bind

  pub to_release :
      d ≡ true
      → h ≡ true
      → d' ≡ d
      → h' ≡ false
      → b' ≡ b
      → C
      → Allowed C (phase d h b) (phase d' h' b')
  to_release gone held same_d let_go same_b clear =
      rw (same_d, gone, held, let_go, same_b) (release clear)

  -- An edit keeps the finalizer and the ID, and takes no deletion back.
  pub to_edit : (d ≡ true → d' ≡ true) → h' ≡ h → b' ≡ b → Allowed C (phase d h b) (phase d' h' b')
  to_edit deleting same_h same_b = elim (Bool-cases d) [
    | inl gone ↦ to_stay (deleting gone ∙ sym gone) same_h same_b
    | inr live ↦ elim (Bool-cases d') [
      | inl gone ↦ to_mark live gone same_h same_b
      | inr still ↦ to_stay (still ∙ sym live) same_h same_b
    ]
  ]

  -- A status of a live, held object keeps the ID or has one.
  pub to_report :
      d ≡ false
      → h ≡ true
      → d' ≡ d
      → h' ≡ h
      → (b' ≡ b) ⊎ (b' ≡ true)
      → Allowed C (phase d h b) (phase d' h' b')
  to_report live held same_d same_h (inl same_b) = to_stay same_d same_h same_b
  to_report live held same_d same_h (inr bound) = to_bind live held same_d same_h bound

-- Any number of steps.
pub data Reaches {Obj : Type 0} (Moves : Obj → Obj → Type 0) (a : Obj) : Obj → Type 0 where
  here : Reaches Moves a a
  next : {b c : Obj} → Reaches Moves a b → Moves b c → Reaches Moves a c

-- On the way from `a` to `b`, a step from `c` to `d` took the finalizer from a deleted, cleared object.
abbrev pub LetsGo :
    {Obj : Type 0} (is_deleting is_held : Obj → Bool) (Cleared : Obj → Type 0)
    (Moves : Obj → Obj → Type 0) (a b : Obj)
    → Type 0
LetsGo {Obj} is_deleting is_held Cleared Moves a b =
    (c : Obj) × (d : Obj) × Reaches Moves a c
    × (is_deleting c ≡ true)
    × (is_held c ≡ true)
    × Cleared c
    × Moves c d
    × (is_held d ≡ false)
    × Reaches Moves d b

guarded : (d h b : Bool) → b ≡ false → IsGuarded (phase d h b)
guarded true h b e = tt
guarded false true b e = tt
guarded false false false e = tt
guarded false false true e = absurd (ground arith)

from_guarded : (h : Bool) → IsGuarded (phase false h true) → h ≡ true
from_guarded false g = elim g [ ]
from_guarded true g = refl

module _ {Obj : Type 0} (is_deleting is_held is_bound : Obj → Bool) (Cleared : Obj → Type 0)
    (Moves : Obj → Obj → Type 0)
    (refines : (a b : Obj)
      → Moves a b
      → Allowed
          (Cleared a)
          (phase (is_deleting a) (is_held a) (is_bound a))
          (phase (is_deleting b) (is_held b) (is_bound b))) where
  abbrev phase_of : Obj → Phase
  phase_of a = phase (is_deleting a) (is_held a) (is_bound a)

  Reaches-IsGuarded :
      {a b : Obj} → Reaches Moves a b → IsGuarded (phase_of a) → IsGuarded (phase_of b)
  Reaches-IsGuarded here g = g
  Reaches-IsGuarded (next {b} {c} r m) g = Allowed-IsGuarded (refines b c m) (Reaches-IsGuarded r g)

  Reaches-IsBound : {a b : Obj} → Reaches Moves a b → IsBound (phase_of a) → IsBound (phase_of b)
  Reaches-IsBound here g = g
  Reaches-IsBound (next {b} {c} r m) g = Allowed-IsBound (refines b c m) (Reaches-IsBound r g)

  -- A held object is held as long as no step on the way lets it go.
  Reaches-IsHeld :
      {a b : Obj}
      → Reaches Moves a b
      → IsHeld (phase_of a)
      → IsHeld (phase_of b) ⊎ LetsGo is_deleting is_held Cleared Moves a b
  Reaches-IsHeld here g = inl g
  Reaches-IsHeld (next {b} {c} r m) g = elim (Reaches-IsHeld r g) [
    | inr (x, y, to_x, gone, held, clear, moves, loose, from_y) ↦
        inr (x, y, to_x, gone, held, clear, moves, loose, next from_y m)
    | inl held ↦ elim (Allowed-IsHeld (refines b c m) held) [
      | inl kept ↦ inl kept
      | inr (gone, clear, loose) ↦ inr (b, c, r, gone, held, clear, m, loose, here)
    ]
  ]

  -- From an object without a resource, a live one with a resource that is reached is held.
  pub bound_is_held :
      {a b : Obj}
      → Reaches Moves a b
      → is_bound a ≡ false
      → is_deleting b ≡ false
      → is_bound b ≡ true
      → is_held b ≡ true
  bound_is_held {a} {b} r unbound live bound = from_guarded (is_held b) (
      rw (live, bound) at
        (Reaches-IsGuarded r (guarded (is_deleting a) (is_held a) (is_bound a) unbound)))

  pub stays_bound : {a b : Obj} → Reaches Moves a b → is_bound a ≡ true → is_bound b ≡ true
  stays_bound r bound = Reaches-IsBound r bound

  pub goes_cleared :
      {a b : Obj}
      → Reaches Moves a b
      → is_held a ≡ true
      → is_held b ≡ false
      → LetsGo is_deleting is_held Cleared Moves a b
  goes_cleared {a} {b} r held gone = elim (Reaches-IsHeld r held) [
    | inl kept ↦ absurd (ground arith)
    | inr cleared ↦ cleared
  ]
