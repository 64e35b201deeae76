-- ===== src/World/Try/Success.antt =====
-- What a chain of calls that succeeded did, step by step.
use policy_operator.Base.{◌≡◌, refl, arith}
use policy_operator.Failure.{Result, ok, err}
use policy_operator.World.{Trace}
use policy_operator.World.Go
use policy_operator.World.Go.{Go, Outcome, returned, panicked, continue}
use policy_operator.World.Try.{Try, or_else, ◌>>=◌}

module _ {ℓ κ} {A : Type ℓ} {B : Type κ} where
  succeeded-continue :
      (r : Outcome (Result A)) (f : A → Try B) (t : Trace) (b : B)
      → (continue r (or_else f) t).0 ≡ returned (ok b)
      → (a : A) × (r ≡ returned (ok a)) × (continue r (or_else f) t ≡ f a t)
  unfolding or_else Go.pure
  succeeded-continue (returned (ok a)) f t b h = (a, refl, refl)
  succeeded-continue (returned (err e)) f t b h = ground arith
  succeeded-continue panicked f t b h = ground arith

  -- A chain that returns a value ran its first half to a value and then its second half.
  pub succeeded :
      (m : Try A) (f : A → Try B) (t : Trace) (b : B)
      → ((m >>= f) t).0 ≡ returned (ok b)
      → (a : A) × ((m t).0 ≡ returned (ok a)) × ((m >>= f) t ≡ f a (m t).1)
  unfolding ◌>>=◌ Go.◌>>=◌
  succeeded m f t b h = succeeded-continue (m t).0 f (m t).1 b h
