-- ===== src/Exemption/Object.antt =====
-- internal/controller/azurepolicyexemption_controller.go: the service interface, the finalizer and
-- the Ready condition.
use policy_operator.Base.{Bool, String}
use policy_operator.Failure.{Message}
use policy_operator.Api.Meta.{ConditionStatus}
use policy_operator.Api.Exemption.{AzurePolicyExemption}
use policy_operator.World.{Env}
use policy_operator.World.Try.{Try}
use policy_operator.Common.Reconcile.{ready}

abbrev pub finalizer : String
finalizer = "governance.platform.io/azurepolicyexemption-finalizer"

-- The interface ExemptionService of the controller.
pub record ExemptionService : Type 0 where
  pub create_or_update : AzurePolicyExemption → Try String
  pub delete : (scope exemption_id : String) → Try (Unit {0})

module _ (env : Env) where
  unfoldable pub set_condition :
      ConditionStatus → String → Message → AzurePolicyExemption → AzurePolicyExemption
  set_condition status reason message exemption = record exemption {
    status = record exemption.status {
      conditions =
          env.set_status_condition exemption.status.conditions
            (ready status reason message exemption.meta);
    };
  }

  abbrev pub has_finalizer : AzurePolicyExemption → Bool
  has_finalizer exemption = env.contains_finalizer exemption.meta.finalizers finalizer

  unfoldable pub add_finalizer : AzurePolicyExemption → AzurePolicyExemption
  add_finalizer exemption = record exemption {
    meta = record exemption.meta {
      finalizers = env.add_finalizer exemption.meta.finalizers finalizer;
    };
  }

  unfoldable pub remove_finalizer : AzurePolicyExemption → AzurePolicyExemption
  remove_finalizer exemption = record exemption {
    meta = record exemption.meta {
      finalizers = env.remove_finalizer exemption.meta.finalizers finalizer;
    };
  }
