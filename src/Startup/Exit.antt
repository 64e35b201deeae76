-- ===== src/Startup/Exit.antt =====
-- When the process exits with 0, and when with 1.
use policy_operator.Base.{String, Option, none, List, [], ◌∷◌, ◌≡◌, ◌≢◌, ◌↔◌, refl, sym, ◌∙◌, arith}
use policy_operator.Base.Lists.{All}
use policy_operator.Failure.{Error}
use policy_operator.World.{Env}
use policy_operator.Startup.Boot.{Action, new_manager, ◌>>=◌, fail, attempt}
use policy_operator.Startup.Options.{Flags, manager_options}
use policy_operator.Startup.Main.{Running, Services, main, code, exit_code}
use policy_operator.Startup.Plan.{perform, plan, running_for, main_performs_plan}

module _ (fails : Action → Option Error) (env : Env) (services : Services) where
  abbrev Works : Action → Type 0
  Works action = fails action ≡ none

  performed :
      (r : Running) (actions log : List Action)
      → All Works actions
      → code fails env services (perform fails r actions log).0 ≡ 0
  performed r [] log fine = refl
  performed r (action ∷ actions) log (works, fine) =
      ground (arith, performed r actions (action ∷ log) fine)

  worked :
      (r : Running) (actions log : List Action)
      → code fails env services (perform fails r actions log).0 ≡ 0
      → All Works actions
  worked r [] log e = tt
  worked r (action ∷ actions) log e = (ground arith, worked r actions (action ∷ log) (ground arith))

  unset_exits : (flags : Flags) → exit_code fails env services flags "" ≡ 1
  unfolding exit_code main ◌>>=◌ fail attempt
  unset_exits flags = ground arith

  with_id :
      (flags : Flags) (id : String)
      → id ≢ ""
      → exit_code fails env services flags id
        ≡ code fails env services
            (perform fails
              (running_for env services id)
              (new_manager (manager_options flags) ∷ plan id)
              []).0
  unfolding exit_code
  with_id flags id given = rw (main_performs_plan env services fails flags id [] given)

  -- The process exits with 0 exactly when the subscription ID is not empty and every call of the
  -- plan works.
  pub exits_zero_iff :
      (flags : Flags) (id : String)
      → (exit_code fails env services flags id ≡ 0) ↔ (
          (id ≢ "")
          × All (λ action. fails action ≡ none) (new_manager (manager_options flags) ∷ plan id))
  exits_zero_iff flags id = (
    λ e.
        let given : id ≢ "" = λ empty. ground (arith, unset_exits flags) in
        (
          given,
          worked (running_for env services id) (new_manager (manager_options flags) ∷ plan id) []
              (sym (with_id flags id given) ∙ e),
        ),
    λ (given, fine).
        with_id flags id given
        ∙ performed (running_for env services id) (new_manager (manager_options flags) ∷ plan id) []
            fine,
  )
