-- ===== src/Assignment/Object.antt =====
-- internal/controller/azurepolicyassignment_controller.go: the service interface, the finalizer and
-- the conditions of an AzurePolicyAssignment.
use policy_operator.Base.{Bool, String, Option, List}
use policy_operator.Failure.{Error, Message}
use policy_operator.Api.Meta.{Condition, ConditionStatus}
use policy_operator.Api.Assignment.{
  AzurePolicyAssignment, AssignmentExemptionStatus, AssignmentIdentity,
}
use policy_operator.World.{Env}
use policy_operator.World.Go.{Go}
use policy_operator.World.Try.{Try}
use policy_operator.Common.Reconcile.{ready, imported, drift_detected}

abbrev pub finalizer : String
finalizer = "governance.platform.io/azurepolicyassignment-finalizer"

-- The values that CreateOrUpdate returns beside its error; a nil list of exemptions is none.
pub record Created : Type 0 where
  pub assignment_id : String
  pub assigned_location : String
  pub mi_principal_id : String
  pub exemptions : Option (List AssignmentExemptionStatus)

-- The values that Import returns beside its error.
pub record Live : Type 0 where
  pub location : String
  pub principal_id : String
  pub drift : List String

-- The interface PolicyAssignmentService of the controller.
pub record PolicyAssignmentService : Type 0 where
  pub get : AzurePolicyAssignment → Try String
  pub create_or_update :
      AzurePolicyAssignment → (policy_definition_id : String) → Go (Created × Option Error)
  pub delete :
      (scope assignment_id : String)
      → List AssignmentExemptionStatus
      → Option AssignmentIdentity
      → Try (Unit {0})
  pub import : String → AzurePolicyAssignment → (policy_definition_id : String) → Try Live

module _ (env : Env) where
  abbrev pub with_condition : Condition → AzurePolicyAssignment → AzurePolicyAssignment
  with_condition c assignment = record assignment {
    status = record assignment.status {
      conditions = env.set_status_condition assignment.status.conditions c;
    };
  }

  unfoldable pub set_condition :
      ConditionStatus → String → Message → AzurePolicyAssignment → AzurePolicyAssignment
  set_condition status reason message assignment =
      with_condition (ready status reason message assignment.meta) assignment

  unfoldable pub set_imported_condition :
      ConditionStatus → String → Message → AzurePolicyAssignment → AzurePolicyAssignment
  set_imported_condition status reason message assignment =
      with_condition (imported status reason message assignment.meta) assignment

  unfoldable pub set_drift_condition : List String → AzurePolicyAssignment → AzurePolicyAssignment
  set_drift_condition drift assignment =
      with_condition
        (drift_detected "Live Azure assignment differs from desired spec: %s"
          "Azure assignment matches desired spec." drift assignment.meta)
        assignment

  abbrev pub has_finalizer : AzurePolicyAssignment → Bool
  has_finalizer assignment = env.contains_finalizer assignment.meta.finalizers finalizer

  unfoldable pub add_finalizer : AzurePolicyAssignment → AzurePolicyAssignment
  add_finalizer assignment = record assignment {
    meta = record assignment.meta {
      finalizers = env.add_finalizer assignment.meta.finalizers finalizer;
    };
  }

  unfoldable pub remove_finalizer : AzurePolicyAssignment → AzurePolicyAssignment
  remove_finalizer assignment = record assignment {
    meta = record assignment.meta {
      finalizers = env.remove_finalizer assignment.meta.finalizers finalizer;
    };
  }
