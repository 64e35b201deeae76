-- ===== src/Assignment/Apply.antt =====
-- internal/controller/azurepolicyassignment_controller.go: checkExistingAssignment and
-- reconcileCreateOrUpdate.
use policy_operator.Base.{
  Bool, true, false, String, Option, none, some, List, [], ◌∷◌, ◌==◌, ◌/=◌, ◌&&◌, if◌then◌else◌,
}
use policy_operator.Failure.{Error, plain, sprintf, error_text, sprintf_error, Result, ok, err}
use policy_operator.Api.Meta.{
  no_requeue, requeue_in, default_requeue_duration, failed_requeue_duration, condition_true,
  condition_false,
}
use policy_operator.Api.Assignment.{AzurePolicyAssignment, AssignmentExemptionStatus}
use policy_operator.World.{Env, Object, normal, warning}
use policy_operator.World.Go.{Go, pure, kube_update_status, record_if_set, ◌>>=◌, ◌>>◌}
use policy_operator.World.Try.{Try}
use policy_operator.Common.Reconcile.{Answer, answer}
use policy_operator.Assignment.Object.{Created, PolicyAssignmentService, set_condition}

-- `if new != "" { field = new }`
abbrev pub or_kept : String → String → String
or_kept old new = if new == "" then old else new

abbrev exemptions_or_kept :
    List AssignmentExemptionStatus
    → Option (List AssignmentExemptionStatus)
    → List AssignmentExemptionStatus
exemptions_or_kept old none = old
exemptions_or_kept old (some new) = new

-- The status after CreateOrUpdate, whether it failed or not.
unfoldable pub store_created : Created → AzurePolicyAssignment → AzurePolicyAssignment
store_created created assignment = record assignment {
  status = record assignment.status {
    assignment_id = or_kept assignment.status.assignment_id created.assignment_id;
    assigned_location = or_kept assignment.status.assigned_location created.assigned_location;
    mi_principal_id = or_kept assignment.status.mi_principal_id created.mi_principal_id;
    exemptions = exemptions_or_kept assignment.status.exemptions created.exemptions;
  };
}

module _ (env : Env) (svc : PolicyAssignmentService) (recorder : Bool) where
  abbrev pub existing : AzurePolicyAssignment → Result String → Try Bool
  existing assignment (err e) = pure (err e)
  existing assignment (ok id) = if id == "" then pure (ok false) else do
    let message =
        sprintf
          "Policy assignment with the same ID already exists in Azure (%s). Use a different name for this assignment."
          (id ∷ [])
    record_if_set recorder warning "PolicyAssignmentAlreadyExists" message
    ignored ← kube_update_status env (
        Object.assignment
          (set_condition env condition_false "PolicyAssignmentAlreadyExists" message assignment))
    pure (ok true)

  unfoldable pub check_existing_assignment : AzurePolicyAssignment → Try Bool
  unfolding ◌>>=◌ pure kube_update_status record_if_set set_condition
  check_existing_assignment assignment = do id ← svc.get assignment; existing assignment id

  abbrev status_written : Option Error → Answer
  status_written (some e) = answer (requeue_in failed_requeue_duration) (some e)
  status_written none = answer (requeue_in default_requeue_duration) none

  -- `stored` is the assignment with the new status.
  abbrev pub applied : AzurePolicyAssignment → Bool → Option Error → Go Answer
  applied stored was_assigned (some e) = do
    record_if_set recorder warning "PolicyAssignmentReconcileFailed"
        (sprintf_error "Failed creating/updating policy assignment: %v" [] e)
    ignored ← kube_update_status env (
        Object.assignment
          (set_condition env condition_false "ReconcileFailed" (error_text e) stored))
    pure (answer (requeue_in failed_requeue_duration) (some e))
  applied stored was_assigned none = do
    (if was_assigned
        then record_if_set (recorder && stored.status.assignment_id /= "") normal
            "PolicyAssignmentUpdated"
            (sprintf "Updated policy assignment %q" (stored.status.assignment_id ∷ []))
        else record_if_set (recorder && stored.status.assignment_id /= "") normal
            "PolicyAssignmentCreated"
            (sprintf "Created policy assignment %q" (stored.status.assignment_id ∷ [])))
    failure ← kube_update_status env (
        Object.assignment (
          set_condition env condition_true "Reconciled"
            (plain "Policy assignment successfully reconciled") stored))
    pure (status_written failure)

  unfoldable pub apply : AzurePolicyAssignment → String → Bool → Go Answer
  unfolding ◌>>=◌ pure kube_update_status record_if_set set_condition store_created
  apply assignment policy_definition_id was_assigned = do
    (created, failure) ← svc.create_or_update assignment policy_definition_id
    applied (store_created created assignment) was_assigned failure

  abbrev pub apply_unless : AzurePolicyAssignment → String → Result Bool → Go Answer
  apply_unless assignment policy_definition_id (err e) = pure (answer no_requeue (some e))
  apply_unless assignment policy_definition_id (ok true) = pure (answer no_requeue none)
  apply_unless assignment policy_definition_id (ok false) =
      apply assignment policy_definition_id false

  unfoldable pub reconcile_create_or_update : AzurePolicyAssignment → String → Go Answer
  unfolding ◌>>=◌ pure apply check_existing_assignment
  reconcile_create_or_update assignment policy_definition_id =
      if assignment.status.assignment_id == ""
      then (do
        stop ← check_existing_assignment assignment
        apply_unless assignment policy_definition_id stop)
      else apply assignment policy_definition_id true
