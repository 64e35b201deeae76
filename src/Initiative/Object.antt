-- ===== src/Initiative/Object.antt =====
-- internal/controller/azurepolicyinitiative_controller.go: the service interface, the
-- finalizer and the conditions of an AzurePolicyInitiative.
use policy_operator.Base.{Bool, String, List}
use policy_operator.Failure.{Message}
use policy_operator.Api.Meta.{Condition, ConditionStatus}
use policy_operator.Api.Initiative.{AzurePolicyInitiative}
use policy_operator.World.{Env}
use policy_operator.World.Try.{Try}
use policy_operator.Common.Reconcile.{ready, imported, drift_detected}

abbrev pub finalizer : String
finalizer = "governance.platform.io/azurepolicyinitiative-finalizer"

-- The interface InitiativeService of the controller.
pub record InitiativeService : Type 0 where
  pub get : AzurePolicyInitiative → Try String
  pub create_or_update : AzurePolicyInitiative → List String → Try String
  pub delete : AzurePolicyInitiative → Try (Unit {0})
  pub import : String → AzurePolicyInitiative → List String → Try (List String)

module _ (env : Env) where
  abbrev pub with_condition : Condition → AzurePolicyInitiative → AzurePolicyInitiative
  with_condition c initiative = record initiative {
    status = record initiative.status {
      conditions = env.set_status_condition initiative.status.conditions c;
    };
  }

  unfoldable pub set_condition :
      ConditionStatus → String → Message → AzurePolicyInitiative → AzurePolicyInitiative
  set_condition status reason message initiative =
      with_condition (ready status reason message initiative.meta) initiative

  unfoldable pub set_imported_condition :
      ConditionStatus → String → Message → AzurePolicyInitiative → AzurePolicyInitiative
  set_imported_condition status reason message initiative =
      with_condition (imported status reason message initiative.meta) initiative

  unfoldable pub set_drift_condition : List String → AzurePolicyInitiative → AzurePolicyInitiative
  set_drift_condition drift initiative =
      with_condition
        (drift_detected "Live Azure initiative differs from desired spec: %s"
          "Azure initiative matches desired spec." drift initiative.meta)
        initiative

  abbrev pub with_id : String → AzurePolicyInitiative → AzurePolicyInitiative
  with_id id initiative = record initiative {
    status = record initiative.status { initiative_id = id };
  }

  abbrev pub has_finalizer : AzurePolicyInitiative → Bool
  has_finalizer initiative = env.contains_finalizer initiative.meta.finalizers finalizer

  unfoldable pub add_finalizer : AzurePolicyInitiative → AzurePolicyInitiative
  add_finalizer initiative = record initiative {
    meta = record initiative.meta {
      finalizers = env.add_finalizer initiative.meta.finalizers finalizer;
    };
  }

  unfoldable pub remove_finalizer : AzurePolicyInitiative → AzurePolicyInitiative
  remove_finalizer initiative = record initiative {
    meta = record initiative.meta {
      finalizers = env.remove_finalizer initiative.meta.finalizers finalizer;
    };
  }
