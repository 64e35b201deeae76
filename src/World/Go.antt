-- ===== src/World/Go.antt =====
-- Go code that makes calls: it reads and extends the trace, and returns or panics.
pub mod Keeps
pub mod Quiet
pub mod Ids
pub mod Returns
pub mod Once
use policy_operator.Base.{Bool, true, false, String, Option, none, some, ◌∷◌}
use policy_operator.Failure.{Message, Error, kube}
use policy_operator.World.{
  Env, Trace, Event, kube_call, arm_call, recorded, new_uuid, update, update_status, ArmCall,
  EventType, Object,
}

pub data Outcome {ℓ} (A : Type ℓ) : Type ℓ where
  returned : A → Outcome A
  panicked : Outcome A

abbrev pub Go {ℓ} : Type ℓ → Type ℓ
Go A = Trace → Outcome A × Trace

module _ {ℓ} {A : Type ℓ} where
  unfoldable pub pure : A → Go A
  pure a t = (returned a, t)

  unfoldable pub panic : Go A
  panic t = (panicked, t)

module _ {ℓ κ} {A : Type ℓ} {B : Type κ} where
  abbrev pub continue : Outcome A → (A → Go B) → Trace → Outcome B × Trace
  continue (returned a) f t = f a t
  continue panicked f t = (panicked, t)

  infixl 10 ◌>>=◌
  unfoldable pub ◌>>=◌ : Go A → (A → Go B) → Go B
  unfolding pure panic
  ◌>>=◌ m f t = let (r, t') = m t in continue r f t'

module _ {ℓ} {B : Type ℓ} where
  infixl 10 ◌>>◌
  abbrev pub ◌>>◌ : Go (Unit {0}) → Go B → Go B
  m >> n = m >>= λ _. n

-- A call and its answer.
unfoldable pub ask {ℓ} : {A : Type ℓ} → Event → (Trace → A) → Go A
ask e answer t = let t' = e ∷ t in (returned (answer t'), t')

abbrev pub kube_failure : Option String → Option Error
kube_failure none = none
kube_failure (some text) = some (kube false text)

module _ (env : Env) where
  -- r.Update and r.Status().Update: nil or an error
  unfoldable pub kube_update : Object → Go (Option Error)
  unfolding ask
  kube_update object = ask (kube_call (update object)) (λ t. kube_failure (env.update_error t))

  unfoldable pub kube_update_status : Object → Go (Option Error)
  unfolding ask
  kube_update_status object =
      ask (kube_call (update_status object)) (λ t. kube_failure (env.update_error t))

  -- a Delete of the Azure SDK, or the Create of a role assignment
  unfoldable pub arm_command : ArmCall → Go (Option String)
  unfolding ask
  arm_command call = ask (arm_call call) env.arm_error

  unfoldable pub new_string : Go String
  unfolding ask
  new_string = ask new_uuid env.uuid_string

-- r.Recorder.Event; a call on the nil recorder panics.
unfoldable pub record_event : Bool → EventType → String → Message → Go (Unit {0})
record_event true type reason message t = (returned tt, recorded type reason message ∷ t)
record_event false type reason message t = (panicked, t)

-- `if r.Recorder != nil { r.Recorder.Event(...) }`
unfoldable pub record_if_set : Bool → EventType → String → Message → Go (Unit {0})
record_if_set true type reason message t = (returned tt, recorded type reason message ∷ t)
record_if_set false type reason message t = (returned tt, t)
