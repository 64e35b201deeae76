-- ===== src/World/Go/Once.antt =====
-- Calls that make at most one write to Kubernetes.
use mathlib.Core.List.{Memᴰ}
use mathlib.Core.List.Memᴰ.{not-nil, cases_cons}
use policy_operator.Base.{
  ℕ, suc, List, [], ◌∷◌, ◌++◌, ◌+◌, ◌≡◌, ◌≤◌, refl, ap, ◌∙◌, inl, inr, arith,
}
use policy_operator.Base.Lists.{length}
use policy_operator.World.{Trace, KubeCall}
use policy_operator.World.Go.{Go, Outcome, returned, panicked, continue, ◌>>=◌}
use policy_operator.World.Go.Quiet.{IsQuiet, Makes}
use policy_operator.World.Views.{kube_writes}

-- How many writes a trace has.
abbrev pub written : Trace → ℕ
written t = length (kube_writes t)

abbrev pub OneWrite {ℓ} : {A : Type ℓ} → Go A → Trace → Type 0
OneWrite m t = written (m t).1 ≤ suc (written t)

module _ {ℓ κ} {A : Type ℓ} {B : Type κ} where
  continue-OneWrite :
      (r : Outcome A) (f : A → Go B) (n : ℕ) (t : Trace)
      → ((a : A) → r ≡ returned a → written (f a t).1 ≤ n)
      → written t ≤ n
      → written (continue r f t).1 ≤ n
  continue-OneWrite (returned a) f n t k h = k a refl
  continue-OneWrite panicked f n t k h = h

  -- The first half makes no write, the second at most one.
  pub once_later :
      (m : Go A) (f : A → Go B) (t : Trace)
      → IsQuiet m t
      → ((a : A) → (m t).0 ≡ returned a → OneWrite (f a) (m t).1)
      → OneWrite (m >>= f) t
  unfolding ◌>>=◌
  once_later m f t quiet k =
      continue-OneWrite (m t).0 f (suc (written t)) (m t).1 (λ a e. rw quiet at (k a e))
        (rw quiet (ground arith))

  -- The second half makes a write only where the first made none.
  pub once_by :
      (m : Go A) (f : A → Go B) (t : Trace)
      → OneWrite m t
      → ((a : A) → (m t).0 ≡ returned a → written (f a (m t).1).1 ≤ suc (written t))
      → OneWrite (m >>= f) t
  unfolding ◌>>=◌
  once_by m f t h k = continue-OneWrite (m t).0 f (suc (written t)) (m t).1 k h

-- `w` is one of the writes to Kubernetes that the call makes.
abbrev pub IncludesWrite {ℓ} : {A : Type ℓ} → Go A → Trace → KubeCall → Type 0
IncludesWrite m t w = (ws : List KubeCall) × (kube_writes (m t).1 ≡ ws ++ kube_writes t) × Memᴰ w ws

length-append : (ws ks : List KubeCall) → length (ws ++ ks) ≡ length ws + length ks
length-append [] ks = omega arith
length-append (w ∷ ws) ks = omega (arith, length-append ws ks)

only :
    (w : KubeCall) (ws ks after : List KubeCall)
    → length after ≤ suc (length ks)
    → after ≡ ws ++ ks
    → Memᴰ w ws
    → after ≡ w ∷ ks
only w [] ks after few e m = absurd (not-nil m)
only w (x ∷ []) ks after few e m = elim (cases_cons m) [
  | inl same ↦ rw same e
  | inr later ↦ absurd (not-nil later)
]
only w (x ∷ y ∷ ws) ks after few e m =
    let long : length after ≡ suc (suc (length ws + length ks)) =
      ap length e ∙ ap (λ n. suc (suc n)) (length-append ws ks) in
    absurd (omega arith)

-- A call that makes at most one write makes no other.
pub only_write {ℓ} :
    {A : Type ℓ} (m : Go A) (t : Trace) (w : KubeCall)
    → OneWrite m t
    → IncludesWrite m t w
    → Makes m t w
only_write m t w once (ws, e, member) =
    only w ws (kube_writes t) (kube_writes (m t).1) once e member

-- A write that is made alone is one of the writes.
pub made_alone {ℓ} :
    {A : Type ℓ} (m : Go A) (t : Trace) (w : KubeCall) → Makes m t w → IncludesWrite m t w
made_alone m t w made = (w ∷ [], made, Memᴰ.head refl)
