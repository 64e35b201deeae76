-- ===== src/Initiative/Import.antt =====
-- internal/controller/azurepolicyinitiative_controller.go: handleImport.
use policy_operator.Base.{
  Bool, not, String, none, some, List, [], ◌∷◌, ◌==◌, ◌/=◌, ◌&&◌, if◌then◌else◌,
}
use policy_operator.Base.Text.{equal_fold}
use policy_operator.Failure.{errorf, plain, sprintf, error_text, sprintf_error, Result, ok, err}
use policy_operator.Api.Meta.{
  no_requeue, requeue_in, default_requeue_duration, failed_requeue_duration, annotation,
  annotation_import_id, annotation_import_mode, import_mode_observe_only, import_mode_only_once,
  reason_applied_once, condition_true, condition_false,
}
use policy_operator.Api.Initiative.{AzurePolicyInitiative}
use policy_operator.World.{Env, Object, normal, warning}
use policy_operator.World.Go.{Go, pure, kube_update_status, record_if_set, ◌>>=◌, ◌>>◌}
use policy_operator.Common.Reconcile.{answer, Step, done, next, or_observe_only, has_reason}
use policy_operator.Initiative.Object.{
  InitiativeService, set_condition, set_imported_condition, set_drift_condition, with_id,
}

module _ (env : Env) (svc : InitiativeService) (recorder : Bool) where
  abbrev pub import_done :
      AzurePolicyInitiative
      → String
      → String
      → Result (List String)
      → Go (Step AzurePolicyInitiative)
  import_done initiative id mode (err e) = do
    record_if_set recorder warning "PolicyInitiativeImportFailed"
        (sprintf_error "Failed importing policy initiative %q: %v" (id ∷ []) e)
    ignored ← kube_update_status env (
        Object.initiative (
          set_condition env condition_false "ImportFailed" (error_text e)
            (set_imported_condition env condition_false "ImportFailed" (error_text e) initiative)))
    pure (done (answer (requeue_in failed_requeue_duration) (some e)))
  import_done initiative id mode (ok drift) = do
    record_if_set recorder normal "ImportSucceeded"
        (sprintf "Successfully imported existing Azure Policy Set Definition with ID %q" (id ∷ []))
    let adopted = set_drift_condition env drift (
        set_imported_condition env condition_true "ImportSucceeded"
          (plain "Existing Azure Policy Set Definition was adopted successfully.")
          (with_id env id initiative))
    if mode == import_mode_observe_only
        then (do
          failure ← kube_update_status env (
              Object.initiative (
                set_condition env condition_true "ObservedOnly"
                  (plain "Resource imported in observe-only mode. No changes applied to Azure.")
                  adopted))
          pure (elim failure [
            | some e ↦ done (answer (requeue_in failed_requeue_duration) (some e))
            | none ↦ done (answer (requeue_in default_requeue_duration) none)
          ]))
        else pure (next adopted)

  abbrev pub conflict : AzurePolicyInitiative → String → Go (Step AzurePolicyInitiative)
  conflict initiative id = do
    ignored ← kube_update_status env (
        Object.initiative (
          set_condition env condition_false "ImportConflict"
            (sprintf "annotation import-id %q differs from already bound initiativeId %q"
              (id ∷ initiative.status.initiative_id ∷ []))
            initiative))
    pure (
        done (
          answer no_requeue (
            some (
              errorf
                "import conflict: annotation import-id %q differs from already bound initiativeId %q"
                (id ∷ initiative.status.initiative_id ∷ [])))))

  -- The bound ID differs from the annotation's.
  abbrev is_rebinding : AzurePolicyInitiative → String → Bool
  is_rebinding initiative id =
      initiative.status.initiative_id /= "" && not (equal_fold id initiative.status.initiative_id)

  abbrev is_applied_once : AzurePolicyInitiative → String → Bool
  is_applied_once initiative mode =
      mode == import_mode_only_once
      && has_reason reason_applied_once
          (env.find_status_condition initiative.status.conditions "Ready")

  unfoldable pub handle_import :
      AzurePolicyInitiative → List String → Go (Step AzurePolicyInitiative)
  unfolding ◌>>=◌ pure kube_update_status record_if_set set_condition set_imported_condition
      set_drift_condition or_observe_only
  handle_import initiative resolved =
      let id = annotation initiative.meta annotation_import_id in
      let mode = or_observe_only (annotation initiative.meta annotation_import_mode) in
      if id == ""
      then pure (next initiative)
      else if is_rebinding initiative id
      then conflict initiative id
      else if is_applied_once initiative mode
      then pure (done (answer (requeue_in default_requeue_duration) none))
      else (do drift ← svc.import id initiative resolved; import_done initiative id mode drift)
