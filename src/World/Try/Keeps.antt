-- ===== src/World/Try/Keeps.antt =====
-- A view of the trace that both halves of a chain keep is kept by the chain.
use policy_operator.Base.{◌≡◌, refl}
use policy_operator.Failure.{Result, ok, err}
use policy_operator.World.{Trace}
use policy_operator.World.Go
use policy_operator.World.Go.Keeps.{keeps}
use policy_operator.World.Try.{Try, or_else, ◌>>=◌}

module _ {ℓ κ μ} {A : Type ℓ} {B : Type κ} {X : Type μ} (view : Trace → X) where
  keeps-or_else :
      (f : A → Try B)
      → ((a : A) (s : Trace) → view (f a s).1 ≡ view s)
      → (r : Result A) (s : Trace) → view (or_else f r s).1 ≡ view s
  unfolding or_else Go.pure
  keeps-or_else f k (ok a) s = k a s
  keeps-or_else f k (err e) s = refl

  pub try_keeps :
      (m : Try A) (f : A → Try B) (t : Trace)
      → view (m t).1 ≡ view t
      → ((a : A) (s : Trace) → view (f a s).1 ≡ view s)
      → view ((m >>= f) t).1 ≡ view t
  unfolding ◌>>=◌
  try_keeps m f t h k = keeps view m (or_else f) t h (keeps-or_else f k)
