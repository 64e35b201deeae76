-- ===== src/World/Go/Ids.antt =====
-- Calls that return the ID of what they create in Azure.
use policy_operator.Base.{Bool, true, String, Option, none, some, ◌≡◌, ◌/=◌, ◌∷◌, refl}
use policy_operator.Failure.{Result, ok}
use policy_operator.Arm.{Resource}
use policy_operator.World.{Trace, Event, Reply, reply, failed}
use policy_operator.World.Go.{Go, Outcome, returned, panicked, continue, ask, ◌>>=◌}

-- An ID that is returned is not empty.
abbrev pub has_id : Outcome (Result String) → Bool
has_id (returned (ok id)) = id /= ""
has_id _ = true

abbrev full : Option String → Bool
full none = true
full (some id) = id /= ""

-- Azure answers with a resource whose ID is not empty, or with an error.
abbrev pub identifies : {A : Type 0} → Reply (Resource A) → Bool
identifies (failed text) = true
identifies (reply r) = full r.id

module _ {ℓ} {A : Type ℓ} where
  continue-has_id :
      (r : Outcome A) (f : A → Go (Result String)) (t : Trace)
      → ((a : A) (s : Trace) → has_id (f a s).0 ≡ true)
      → has_id (continue r f t).0 ≡ true
  continue-has_id (returned a) f t k = k a t
  continue-has_id panicked f t k = refl

  pub gives_id :
      (m : Go A) (f : A → Go (Result String)) (t : Trace)
      → ((a : A) (s : Trace) → has_id (f a s).0 ≡ true)
      → has_id ((m >>= f) t).0 ≡ true
  unfolding ◌>>=◌
  gives_id m f t k = continue-has_id (m t).0 f (m t).1 k

pub asked_gives_id :
    {A : Type 0} (e : Event) (answer : Trace → Reply (Resource A))
    (f : Reply (Resource A) → Go (Result String)) (t : Trace)
    → ((r : Reply (Resource A)) (s : Trace) → identifies r ≡ true → has_id (f r s).0 ≡ true)
    → ((s : Trace) → identifies (answer s) ≡ true)
    → has_id ((ask e answer >>= f) t).0 ≡ true
unfolding ◌>>=◌ ask
asked_gives_id e answer f t k given = k (answer (e ∷ t)) (e ∷ t) (given (e ∷ t))
