-- ===== src/Startup/Controllers.antt =====
-- The four controllers as main makes them, and their SetupWithManager. The reconcilers' embedded
-- client and the scheme are the manager's.
use policy_operator.Base.{Option, none, some, String, List, [], ◌∷◌}
use policy_operator.Failure.{Error}
use policy_operator.Api.Meta.{NamespacedName}
use policy_operator.Api.Definition.{AzurePolicyDefinition}
use policy_operator.World.{Env, Kind}
use policy_operator.World.Go.{Go}
use policy_operator.Initiative.Resolve.{initiatives_referencing_definition}
use policy_operator.Assignment.Resolve.{assignments_referencing_definition}
use policy_operator.Startup.Boot.{Action, complete, Boot, attempt}

-- A reconciler of one kind, for a service of that kind. A recorder is known by its name, and nil
-- is none; `watches` are the map functions for definitions.
pub record Reconciler (Service : Type 0) : Type 0 where
  pub service : Service
  pub recorder : Option String
  pub watches : List (AzurePolicyDefinition → Go (List NamespacedName))

-- Before SetupWithManager.
abbrev pub reconciler_for : {Service : Type 0} → Service → Reconciler Service
reconciler_for service = record { service = service; recorder = none; watches = [] }

module _ (fails : Action → Option Error) (env : Env) {Service : Type 0} where
  unfoldable pub set_up_definition : Reconciler Service → Boot (Reconciler Service)
  unfolding attempt
  set_up_definition r =
      attempt fails (complete Kind.definition "azurepolicydefinition-controller" [])
        (record r { recorder = some "azurepolicydefinition-controller" })

  unfoldable pub set_up_initiative : Reconciler Service → Boot (Reconciler Service)
  unfolding attempt
  set_up_initiative r =
      attempt fails
        (complete Kind.initiative "azurepolicyinitiative-controller" (Kind.definition ∷ []))
        (record r {
          recorder = some "azurepolicyinitiative-controller";
          watches = initiatives_referencing_definition env ∷ [];
        })

  unfoldable pub set_up_assignment : Reconciler Service → Boot (Reconciler Service)
  unfolding attempt
  set_up_assignment r =
      attempt fails
        (complete Kind.assignment "azurepolicyassignment-controller" (Kind.definition ∷ []))
        (record r {
          recorder = some "azurepolicyassignment-controller";
          watches = assignments_referencing_definition env ∷ [];
        })

  unfoldable pub set_up_exemption : Reconciler Service → Boot (Reconciler Service)
  unfolding attempt
  set_up_exemption r =
      attempt fails (complete Kind.exemption "azurepolicyexemption-controller" [])
        (record r { recorder = some "azurepolicyexemption-controller" })
