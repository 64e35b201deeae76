-- ===== src/World/Try.antt =====
-- Go functions that return a value and an error, chained by `if err != nil { return err }`.
pub mod Keeps
pub mod Success
use policy_operator.Base.{Option, none, some, String}
use policy_operator.Failure.{Error, Result, ok, err}
use policy_operator.World.{Reply, reply, failed}
use policy_operator.World.Go
use policy_operator.World.Go.{Go}

abbrev pub Try {ℓ} : Type ℓ → Type ℓ
Try A = Go (Result A)

module _ {ℓ} {A : Type ℓ} where
  unfoldable pub pure : A → Try A
  unfolding Go.pure
  pure a = Go.pure (ok a)

  unfoldable pub fail : Error → Try A
  unfolding Go.pure
  fail e = Go.pure (err e)

module _ {ℓ κ} {A : Type ℓ} {B : Type κ} where
  unfoldable pub or_else : (A → Try B) → Result A → Try B
  unfolding Go.pure
  or_else f (ok a) = f a
  or_else f (err e) = Go.pure (err e)

  infixl 10 ◌>>=◌
  unfoldable pub ◌>>=◌ : Try A → (A → Try B) → Try B
  unfolding or_else Go.◌>>=◌ pure fail
  m >>= f = Go.◌>>=◌ m (or_else f)

module _ {ℓ} {B : Type ℓ} where
  infixl 10 ◌>>◌
  abbrev pub ◌>>◌ : Try (Unit {0}) → Try B → Try B
  m >> n = m >>= λ _. n

-- The error of a command that returns nothing else.
abbrev pub nil_or : (String → Error) → Option String → Result (Unit {0})
nil_or wrap none = ok tt
nil_or wrap (some text) = err (wrap text)

abbrev pub reply_or : {A : Type 0} → (String → Error) → Reply A → Result A
reply_or wrap (reply a) = ok a
reply_or wrap (failed text) = err (wrap text)
