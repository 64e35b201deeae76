-- ===== src/Startup/Main.antt =====
-- cmd/main.go: main. The environment variable AZURE_SUBSCRIPTION_ID is an argument; the services that
-- NewService gives for the ARM client are an argument too.
use policy_operator.Base.{ℕ, String, Option, [], ◌==◌, if◌then◌else◌}
use policy_operator.Failure.{Error, errorf, Result, ok, err}
use policy_operator.World.{Env}
use policy_operator.Definition.Object.{DefinitionService}
use policy_operator.Initiative.Object.{InitiativeService}
use policy_operator.Assignment.Object.{PolicyAssignmentService}
use policy_operator.Exemption.Object.{ExemptionService}
use policy_operator.Startup.Boot.{
  Action, new_manager, add_check, start, Boot, boot_pure, fail, attempt, ◌>>=◌,
}
use policy_operator.Startup.Options.{Flags, manager_options}
use policy_operator.Startup.Client.{ArmClient, new_arm_client}
use policy_operator.Startup.Controllers.{
  Reconciler, reconciler_for, set_up_definition, set_up_initiative, set_up_assignment,
  set_up_exemption,
}

-- The controllers that the manager runs.
pub record Running : Type 0 where
  pub definitions : Reconciler DefinitionService
  pub assignments : Reconciler PolicyAssignmentService
  pub exemptions : Reconciler ExemptionService
  pub initiatives : Reconciler InitiativeService

-- NewService of the four services.
pub record Services : Type 0 where
  pub definitions : ArmClient → DefinitionService
  pub exemptions : ArmClient → ExemptionService
  pub assignments : ArmClient → ExemptionService → PolicyAssignmentService
  pub initiatives : ArmClient → InitiativeService

module _ (fails : Action → Option Error) (env : Env) (services : Services) where
  unfoldable pub set_up_all : ArmClient → Boot Running
  unfolding ◌>>=◌ boot_pure set_up_definition set_up_initiative set_up_assignment set_up_exemption
  set_up_all arm = do
    definitions ← set_up_definition fails env (reconciler_for (services.definitions arm))
    assignments ←
        set_up_assignment fails env
          (reconciler_for (services.assignments arm (services.exemptions arm)))
    exemptions ← set_up_exemption fails env (reconciler_for (services.exemptions arm))
    initiatives ← set_up_initiative fails env (reconciler_for (services.initiatives arm))
    boot_pure (record {
      definitions = definitions;
      assignments = assignments;
      exemptions = exemptions;
      initiatives = initiatives;
    })

  -- Everything from the ARM client on.
  unfoldable pub run_manager : String → Boot Running
  unfolding ◌>>=◌ boot_pure attempt new_arm_client set_up_all
  run_manager subscription_id = do
    arm ← new_arm_client fails subscription_id
    running ← set_up_all arm
    health ← attempt fails (add_check "healthz") tt
    ready ← attempt fails (add_check "readyz") tt
    attempt fails start running

  unfoldable pub main : Flags → String → Boot Running
  unfolding ◌>>=◌ fail attempt manager_options run_manager
  main flags subscription_id = do
    manager ← attempt fails (new_manager (manager_options flags)) tt
    if subscription_id == ""
        then fail (errorf "AZURE_SUBSCRIPTION_ID not set" [])
        else run_manager subscription_id

  abbrev pub code : Result Running → ℕ
  code (ok running) = 0
  code (err e) = 1

  -- The exit code of the process.
  unfoldable pub exit_code : Flags → String → ℕ
  unfolding main
  exit_code flags subscription_id = code (main flags subscription_id []).0
