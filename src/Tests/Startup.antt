-- ===== src/Tests/Startup.antt =====
-- The theorems about start-up at concrete inputs: a server where every call works, and one where the
-- readiness probe cannot be added.
use policy_operator.Base.{
  String, true, ne_of_differ, Option, none, some, [], ◌∷◌, ◌≡◌, ◌≢◌, ◌↔◌, ◌==◌, if◌then◌else◌, refl,
}
use policy_operator.Base.Lists.{All}
use policy_operator.Failure.{Error, kube}
use policy_operator.Definition
use policy_operator.Initiative
use policy_operator.Assignment
use policy_operator.Exemption
use policy_operator.Startup.Boot.{Action, new_manager, add_check}
use policy_operator.Startup.Options.{default_flags, manager_options}
use policy_operator.Startup.Main.{Services, main, exit_code}
use policy_operator.Startup.Plan.{plan, perform, running_for, main_performs_plan}
use policy_operator.Startup.Exit.{exits_zero_iff}
use policy_operator.Tests.Server.{server}

abbrev services : Services
services = record {
  definitions = λ arm. Definition.Wiring.service server;
  exemptions = λ arm. Exemption.Laws.service server;
  assignments = λ arm exemptions. Assignment.Wiring.service server;
  initiatives = λ arm. Initiative.Wiring.service server;
}

-- Only the readiness probe fails.
abbrev unready : Action → Option Error
unready (add_check name) = if name == "readyz" then some (kube true "no such check") else none
unready action = none

abbrev subscription : String
subscription = "s"

main_performs_plan_example :
    main unready server services default_flags subscription []
    ≡ perform unready
        (running_for server services subscription)
        (new_manager (manager_options default_flags) ∷ plan subscription)
        []
main_performs_plan_example =
    main_performs_plan server services unready default_flags subscription [] (ne_of_differ refl)

exits_zero_iff_example : (exit_code unready server services default_flags subscription ≡ 0) ↔ (
    (subscription ≢ "")
    × All
        (λ action. unready action ≡ none)
        (new_manager (manager_options default_flags) ∷ plan subscription))
exits_zero_iff_example = exits_zero_iff unready server services default_flags subscription
