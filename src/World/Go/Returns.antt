-- ===== src/World/Go/Returns.antt =====
-- Calls that return rather than panic.
use policy_operator.Base.{Bool, true, false, ◌≡◌, ◌∷◌, refl, arith}
use policy_operator.World.{Trace, Event}
use policy_operator.World.Go.{Go, Outcome, returned, panicked, continue, ask, ◌>>=◌}

abbrev pub returns {ℓ} : {A : Type ℓ} → Outcome A → Bool
returns (returned a) = true
returns panicked = false

module _ {ℓ κ} {A : Type ℓ} {B : Type κ} where
  continue-returns :
      (r : Outcome A) (f : A → Go B) (t : Trace)
      → returns r ≡ true
      → ((a : A) → r ≡ returned a → (s : Trace) → returns (f a s).0 ≡ true)
      → returns (continue r f t).0 ≡ true
  continue-returns (returned a) f t h k = k a refl t
  continue-returns panicked f t h k = absurd (ground arith)

  -- A chain returns where both of its halves do.
  pub chain_returns :
      (m : Go A) (f : A → Go B) (t : Trace)
      → returns (m t).0 ≡ true
      → ((a : A) → (m t).0 ≡ returned a → (s : Trace) → returns (f a s).0 ≡ true)
      → returns ((m >>= f) t).0 ≡ true
  unfolding ◌>>=◌
  chain_returns m f t h k = continue-returns (m t).0 f (m t).1 h k

module _ {A : Type 0} {B : Type 0} where
  pub asked_returns :
      (e : Event) (answer : Trace → A) (f : A → Go B) (t : Trace) (Good : A → Type 0)
      → ((a : A) (s : Trace) → Good a → returns (f a s).0 ≡ true)
      → ((s : Trace) → Good (answer s))
      → returns ((ask e answer >>= f) t).0 ≡ true
  unfolding ◌>>=◌ ask
  asked_returns e answer f t Good k good = k (answer (e ∷ t)) (e ∷ t) (good (e ∷ t))
