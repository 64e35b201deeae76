-- ===== src/Definition/Object.antt =====
-- internal/controller/azurepolicydefinition_controller.go: the service interface, the
-- finalizer and the conditions of an AzurePolicyDefinition.
use policy_operator.Base.{Bool, String, List}
use policy_operator.Failure.{Message}
use policy_operator.Api.Meta.{Condition, ConditionStatus}
use policy_operator.Api.Definition.{AzurePolicyDefinition}
use policy_operator.World.{Env}
use policy_operator.World.Try.{Try}
use policy_operator.Common.Reconcile.{ready, imported, drift_detected}

abbrev pub finalizer : String
finalizer = "governance.platform.io/azurepolicydefinition-finalizer"

-- The interface DefinitionService of the controller.
pub record DefinitionService : Type 0 where
  pub get : AzurePolicyDefinition → Try String
  pub create_or_update : AzurePolicyDefinition → Try String
  pub delete : AzurePolicyDefinition → Try (Unit {0})
  pub import : String → AzurePolicyDefinition → Try (List String)

module _ (env : Env) where
  abbrev pub with_condition : Condition → AzurePolicyDefinition → AzurePolicyDefinition
  with_condition c def = record def {
    status = record def.status { conditions = env.set_status_condition def.status.conditions c };
  }

  unfoldable pub set_condition :
      ConditionStatus → String → Message → AzurePolicyDefinition → AzurePolicyDefinition
  set_condition status reason message def =
      with_condition (ready status reason message def.meta) def

  unfoldable pub set_imported_condition :
      ConditionStatus → String → Message → AzurePolicyDefinition → AzurePolicyDefinition
  set_imported_condition status reason message def =
      with_condition (imported status reason message def.meta) def

  unfoldable pub set_drift_condition : List String → AzurePolicyDefinition → AzurePolicyDefinition
  set_drift_condition drift def =
      with_condition
        (drift_detected "Live Azure definition differs from desired spec: %s"
          "Azure definition matches desired spec." drift def.meta)
        def

  abbrev pub with_id : String → AzurePolicyDefinition → AzurePolicyDefinition
  with_id id def = record def { status = record def.status { policy_definition_id = id } }

  abbrev pub has_finalizer : AzurePolicyDefinition → Bool
  has_finalizer def = env.contains_finalizer def.meta.finalizers finalizer

  unfoldable pub add_finalizer : AzurePolicyDefinition → AzurePolicyDefinition
  add_finalizer def = record def {
    meta = record def.meta { finalizers = env.add_finalizer def.meta.finalizers finalizer };
  }

  unfoldable pub remove_finalizer : AzurePolicyDefinition → AzurePolicyDefinition
  remove_finalizer def = record def {
    meta = record def.meta { finalizers = env.remove_finalizer def.meta.finalizers finalizer };
  }
