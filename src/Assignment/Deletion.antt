-- ===== src/Assignment/Deletion.antt =====
-- internal/controller/azurepolicyassignment_controller.go: handleDeletion.
use policy_operator.Base.{Bool, Option, none, some, [], ◌∷◌, ◌/=◌, not, if◌then◌else◌}
use policy_operator.Failure.{Error, sprintf, error_text, sprintf_error, Result, ok, err}
use policy_operator.Api.Meta.{condition_false}
use policy_operator.Api.Assignment.{AzurePolicyAssignment}
use policy_operator.World.{Env, Object, normal, warning}
use policy_operator.World.Go.{Go, pure, kube_update, kube_update_status, record_if_set, ◌>>=◌, ◌>>◌}
use policy_operator.Assignment.Object.{
  PolicyAssignmentService, set_condition, has_finalizer, remove_finalizer,
}

module _ (env : Env) (svc : PolicyAssignmentService) (recorder : Bool) where
  abbrev deletion_failed : AzurePolicyAssignment → Error → Go (Option Error)
  deletion_failed assignment e = do
    record_if_set recorder warning "PolicyAssignmentDeleteFailed" (
        sprintf_error "Failed deleting policy assignment %q: %v"
          (assignment.status.assignment_id ∷ []) e)
    ignored ← kube_update_status env (
        Object.assignment
          (set_condition env condition_false "DeleteFailed" (error_text e) assignment))
    pure (some e)

  abbrev pub cleaned_up : AzurePolicyAssignment → Result (Unit {0}) → Go (Option Error)
  cleaned_up assignment (err e) = deletion_failed assignment e
  cleaned_up assignment (ok _) = do
    record_if_set recorder normal "PolicyAssignmentDeleted"
        (sprintf "Deleted policy assignment %q" (assignment.status.assignment_id ∷ []))
    kube_update env (Object.assignment (remove_finalizer env assignment))

  unfoldable pub handle_deletion : AzurePolicyAssignment → Go (Option Error)
  unfolding ◌>>=◌ pure kube_update kube_update_status record_if_set set_condition remove_finalizer
  handle_deletion assignment =
      if not (has_finalizer env assignment)
      then pure none
      else if assignment.status.assignment_id /= ""
      then (do
        deleted ←
            svc.delete assignment.spec.scope assignment.status.assignment_id
              assignment.status.exemptions assignment.spec.identity
        cleaned_up assignment deleted)
      else kube_update env (Object.assignment (remove_finalizer env assignment))
