-- ===== src/Assignment/Import.antt =====
-- internal/controller/azurepolicyassignment_controller.go: handleImport.
use policy_operator.Base.{
  Bool, String, Option, none, some, [], ◌∷◌, ◌==◌, ◌/=◌, ◌&&◌, not, if◌then◌else◌,
}
use policy_operator.Base.Text.{equal_fold}
use policy_operator.Failure.{Error, errorf, plain, sprintf, error_text, Result, ok, err}
use policy_operator.Api.Meta.{
  no_requeue, requeue_in, default_requeue_duration, failed_requeue_duration, annotation,
  annotation_import_id, annotation_import_mode, import_mode_observe_only, import_mode_only_once,
  reason_applied_once, condition_true, condition_false,
}
use policy_operator.Api.Assignment.{AzurePolicyAssignment}
use policy_operator.World.{Env, Object, normal}
use policy_operator.World.Go.{Go, pure, kube_update_status, record_event, ◌>>=◌, ◌>>◌}
use policy_operator.Common.Reconcile.{Answer, answer, Step, done, next, or_observe_only, has_reason}
use policy_operator.Assignment.Object.{
  Live, PolicyAssignmentService, set_condition, set_imported_condition, set_drift_condition,
}
use policy_operator.Assignment.Apply.{or_kept}

module _ (env : Env) (svc : PolicyAssignmentService) (recorder : Bool) where
  abbrev pub with_live : String → Live → AzurePolicyAssignment → AzurePolicyAssignment
  with_live id live assignment = record assignment {
    status = record assignment.status {
      assignment_id = id;
      assigned_location = or_kept assignment.status.assigned_location live.location;
      mi_principal_id = or_kept assignment.status.mi_principal_id live.principal_id;
    };
  }

  abbrev observed : Option Error → Answer
  observed (some e) = answer no_requeue (some e)
  observed none = answer (requeue_in default_requeue_duration) none

  abbrev pub import_done :
      AzurePolicyAssignment → String → String → Result Live → Go (Step AzurePolicyAssignment)
  import_done assignment id mode (err e) = do
    ignored ← kube_update_status env (
        Object.assignment (
          set_condition env condition_false "ImportFailed" (error_text e)
            (set_imported_condition env condition_false "ImportFailed" (error_text e) assignment)))
    pure (done (answer (requeue_in failed_requeue_duration) (some e)))
  import_done assignment id mode (ok live) = do
    record_event recorder normal "ImportSucceeded"
        (sprintf "Successfully imported existing Azure Policy Assignment with ID %q" (id ∷ []))
    let adopted = set_drift_condition env live.drift (
        set_imported_condition env condition_true "ImportSucceeded"
          (plain "Existing Azure Policy Assignment was adopted successfully.")
          (with_live id live assignment))
    if mode == import_mode_observe_only
        then (do
          failure ← kube_update_status env (
              Object.assignment (
                set_condition env condition_true "ObservedOnly"
                  (plain "Resource imported in observe-only mode. No changes applied to Azure.")
                  adopted))
          pure (done (observed failure)))
        else pure (next adopted)

  abbrev pub conflict : AzurePolicyAssignment → String → Go (Step AzurePolicyAssignment)
  conflict assignment id = do
    ignored ← kube_update_status env (
        Object.assignment (
          set_condition env condition_false "ImportConflict"
            (sprintf "annotation import-id %q differs from already bound assignmentId %q"
              (id ∷ assignment.status.assignment_id ∷ []))
            assignment))
    pure (
        done (
          answer no_requeue (
            some (
              errorf
                "import conflict: annotation import-id %q differs from already bound assignmentId %q"
                (id ∷ assignment.status.assignment_id ∷ [])))))

  -- The bound ID differs from the annotation's, letter case aside.
  abbrev is_rebinding : AzurePolicyAssignment → String → Bool
  is_rebinding assignment id =
      assignment.status.assignment_id /= "" && not (equal_fold id assignment.status.assignment_id)

  abbrev is_applied_once : AzurePolicyAssignment → String → Bool
  is_applied_once assignment mode =
      mode == import_mode_only_once
      && has_reason reason_applied_once
          (env.find_status_condition assignment.status.conditions "Ready")

  unfoldable pub handle_import : AzurePolicyAssignment → String → Go (Step AzurePolicyAssignment)
  unfolding ◌>>=◌ pure kube_update_status record_event set_condition set_imported_condition
      set_drift_condition or_observe_only
  handle_import assignment policy_definition_id =
      let id = annotation assignment.meta annotation_import_id in
      let mode = or_observe_only (annotation assignment.meta annotation_import_mode) in
      if id == ""
      then pure (next assignment)
      else if is_rebinding assignment id
      then conflict assignment id
      else if is_applied_once assignment mode
      then pure (done (answer (requeue_in default_requeue_duration) none))
      else (do
        live ← svc.import id assignment policy_definition_id
        import_done assignment id mode live)
