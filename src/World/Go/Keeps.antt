-- ===== src/World/Go/Keeps.antt =====
-- A view of the trace that both halves of a chain keep is kept by the chain.
use policy_operator.Base.{◌≡◌, ◌∙◌}
use policy_operator.World.{Trace}
use policy_operator.World.Go.{Go, Outcome, returned, panicked, ◌>>=◌, continue}

module _ {ℓ κ μ} {A : Type ℓ} {B : Type κ} {X : Type μ} (view : Trace → X) where
  keeps-continue :
      (r : Outcome A) (f : A → Go B) (t t' : Trace)
      → view t' ≡ view t
      → ((a : A) (s : Trace) → view (f a s).1 ≡ view s)
      → view (continue r f t').1 ≡ view t
  keeps-continue (returned a) f t t' h k = k a t' ∙ h
  keeps-continue panicked f t t' h k = h

  pub keeps :
      (m : Go A) (f : A → Go B) (t : Trace)
      → view (m t).1 ≡ view t
      → ((a : A) (s : Trace) → view (f a s).1 ≡ view s)
      → view ((m >>= f) t).1 ≡ view t
  unfolding ◌>>=◌
  keeps m f t h k = keeps-continue (m t).0 f t (m t).1 h k
