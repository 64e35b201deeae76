-- ===== src/Startup/Boot.antt =====
-- Start-up code: a chain of calls that may fail, each noted in a log, the latest first. The first
-- error ends the chain.
use policy_operator.Base.{String, Option, none, some, List, ◌∷◌}
use policy_operator.Failure.{Error, Result, ok, err}
use policy_operator.World.{Kind}
use policy_operator.Startup.Options.{ManagerOptions}

-- The constructors of the Azure SDK.
pub data SdkClient : Type 0 where
  definitions_client : SdkClient
  set_definitions_client : SdkClient
  assignments_client : SdkClient
  exemptions_client : SdkClient
  role_assignments_client : SdkClient
  role_definitions_client : SdkClient

-- The calls of start-up that return an error.
pub data Action : Type 0 where
  new_manager : ManagerOptions → Action
  new_credential : Action
  -- with the subscription ID, where the constructor takes one
  new_sdk_client : SdkClient → Option String → Action
  -- Complete of the controller of that kind, with its recorder's name and the kinds that it watches
  complete : Kind → String → List Kind → Action
  add_check : String → Action
  start : Action

abbrev pub Boot : Type 0 → Type 0
Boot A = List Action → Result A × List Action

module _ {A : Type 0} where
  unfoldable pub boot_pure : A → Boot A
  boot_pure a log = (ok a, log)

  unfoldable pub fail : Error → Boot A
  fail e log = (err e, log)

module _ {A B : Type 0} where
  abbrev pub continue : Result A → (A → Boot B) → Boot B
  continue (ok a) f log = f a log
  continue (err e) f log = (err e, log)

  infixl 10 ◌>>=◌
  unfoldable pub ◌>>=◌ : Boot A → (A → Boot B) → Boot B
  ◌>>=◌ m f log = let (r, log') = m log in continue r f log'

-- `fails` answers each call with its error, if any.
module _ {A : Type 0} (fails : Action → Option Error) where
  abbrev pub judged : Option Error → A → List Action → Result A × List Action
  judged none a log = (ok a, log)
  judged (some e) a log = (err e, log)

  -- The call, and what it returns where it does not fail.
  unfoldable pub attempt : Action → A → Boot A
  attempt action a log = judged (fails action) a (action ∷ log)
