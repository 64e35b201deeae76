-- ===== src/Startup/Plan.antt =====
-- Start-up performs a fixed plan of calls, in order, and stops at the first that fails.
use policy_operator.Base.{String, Option, none, some, List, [], ◌∷◌, ◌≡◌, ◌≢◌, arith, eq_iff}
use policy_operator.Failure.{Error, ok, err}
use policy_operator.World.{Env, Kind}
use policy_operator.Initiative.Resolve.{initiatives_referencing_definition}
use policy_operator.Assignment.Resolve.{assignments_referencing_definition}
use policy_operator.Startup.Boot.{
  SdkClient, definitions_client, set_definitions_client, assignments_client, exemptions_client,
  role_assignments_client, role_definitions_client, Action, new_manager, new_credential,
  new_sdk_client, complete, add_check, start, Boot, boot_pure, attempt, ◌>>=◌,
}
use policy_operator.Startup.Options.{Flags, manager_options}
use policy_operator.Startup.Client.{ArmClient, SdkHandle, new_client, new_arm_client}
use policy_operator.Startup.Controllers.{
  set_up_definition, set_up_initiative, set_up_assignment, set_up_exemption,
}
use policy_operator.Startup.Main.{Running, Services, set_up_all, run_manager, main}

module _ (fails : Action → Option Error) {A : Type 0} where
  -- The calls of a plan in order, up to the first that fails.
  abbrev pub perform : A → List Action → Boot A
  perform a [] log = (ok a, log)
  perform a (action ∷ actions) log = elim (fails action) [
    | none ↦ perform a actions (action ∷ log)
    | some e ↦ (err e, action ∷ log)
  ]

-- The client of an ARM subscription.
abbrev handle : SdkClient → Option String → SdkHandle
handle client subscription = record { client = client; subscription = subscription }

abbrev arm_of : String → ArmClient
arm_of id = record {
  subscription_id = id;
  definitions = handle definitions_client (some id);
  initiatives = handle set_definitions_client (some id);
  assignments = new_client (handle assignments_client (some id));
  exemptions = new_client (handle exemptions_client (some id));
  role_assignments = handle role_assignments_client (some id);
  role_definitions = handle role_definitions_client none;
}

-- The credential and six clients, the four controllers, two probes, and the start.
abbrev pub plan : String → List Action
plan id =
    new_credential
    ∷ new_sdk_client definitions_client (some id)
    ∷ new_sdk_client set_definitions_client (some id)
    ∷ new_sdk_client assignments_client (some id)
    ∷ new_sdk_client exemptions_client (some id)
    ∷ new_sdk_client role_assignments_client (some id)
    ∷ new_sdk_client role_definitions_client none
    ∷ complete Kind.definition "azurepolicydefinition-controller" []
    ∷ complete Kind.assignment "azurepolicyassignment-controller" (Kind.definition ∷ [])
    ∷ complete Kind.exemption "azurepolicyexemption-controller" []
    ∷ complete Kind.initiative "azurepolicyinitiative-controller" (Kind.definition ∷ [])
    ∷ add_check "healthz"
    ∷ add_check "readyz"
    ∷ start
    ∷ []

module _ (env : Env) (services : Services) where
  abbrev pub running_for : String → Running
  running_for id = record {
    definitions = record {
      service = services.definitions (arm_of id);
      recorder = some "azurepolicydefinition-controller";
      watches = [];
    };
    assignments = record {
      service = services.assignments (arm_of id) (services.exemptions (arm_of id));
      recorder = some "azurepolicyassignment-controller";
      watches = assignments_referencing_definition env ∷ [];
    };
    exemptions = record {
      service = services.exemptions (arm_of id);
      recorder = some "azurepolicyexemption-controller";
      watches = [];
    };
    initiatives = record {
      service = services.initiatives (arm_of id);
      recorder = some "azurepolicyinitiative-controller";
      watches = initiatives_referencing_definition env ∷ [];
    };
  }

  module _ (fails : Action → Option Error) where
    -- With a subscription ID that is not empty, main makes the manager, the credential and the six
    -- clients, completes the four controllers with their recorders and watches, adds two probes and
    -- starts, in this order, and stops at the first call that fails.
    pub main_performs_plan :
        (flags : Flags) (subscription_id : String) (log : List Action)
        → subscription_id ≢ ""
        → main fails env services flags subscription_id log
          ≡ perform fails
              (running_for subscription_id)
              (new_manager (manager_options flags) ∷ plan subscription_id)
              log
    unfolding main run_manager new_arm_client set_up_all set_up_definition set_up_initiative
        set_up_assignment set_up_exemption attempt boot_pure new_client ◌>>=◌
    main_performs_plan flags subscription_id log given = ground (arith, eq_iff subscription_id "")
