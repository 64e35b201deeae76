-- ===== src/Definition/Import.antt =====
-- internal/controller/azurepolicydefinition_controller.go: handleImport.
use policy_operator.Base.{Bool, String, none, some, List, [], ◌∷◌, ◌==◌, ◌/=◌, ◌&&◌, if◌then◌else◌}
use policy_operator.Failure.{errorf, plain, sprintf, error_text, sprintf_error, Result, ok, err}
use policy_operator.Api.Meta.{
  no_requeue, requeue_in, default_requeue_duration, failed_requeue_duration, annotation,
  annotation_import_id, annotation_import_mode, import_mode_observe_only, import_mode_only_once,
  reason_applied_once, condition_true, condition_false,
}
use policy_operator.Api.Definition.{AzurePolicyDefinition}
use policy_operator.World.{Env, Object, normal, warning}
use policy_operator.World.Go.{
  Go, pure, kube_update_status, record_event, record_if_set, ◌>>=◌, ◌>>◌,
}
use policy_operator.Common.Reconcile.{answer, Step, done, next, or_observe_only, has_reason}
use policy_operator.Definition.Object.{
  DefinitionService, set_condition, set_imported_condition, set_drift_condition, with_id,
}

module _ (env : Env) (svc : DefinitionService) (recorder : Bool) where
  abbrev pub import_done :
      AzurePolicyDefinition
      → String
      → String
      → Result (List String)
      → Go (Step AzurePolicyDefinition)
  import_done def id mode (err e) = do
    record_if_set recorder warning "PolicyDefinitionImportFailed"
        (sprintf_error "Failed importing policy definition %q: %v" (id ∷ []) e)
    ignored ← kube_update_status env (
        Object.definition (
          set_condition env condition_false "ImportFailed" (error_text e)
            (set_imported_condition env condition_false "ImportFailed" (error_text e) def)))
    pure (done (answer (requeue_in failed_requeue_duration) (some e)))
  import_done def id mode (ok drift) = do
    record_event recorder normal "ImportSucceeded"
        (sprintf "Successfully imported policy definition with ID %q" (id ∷ []))
    let adopted = set_drift_condition env drift (
        set_imported_condition env condition_true "ImportSucceeded"
          (plain "Existing Azure Policy Definition was adopted successfully.") (with_id env id def))
    if mode == import_mode_observe_only
        then (do
          failure ← kube_update_status env (
              Object.definition (
                set_condition env condition_true "ObservedOnly"
                  (plain "Resource imported in observe-only mode. No changes applied to Azure.")
                  adopted))
          pure (elim failure [
            | some e ↦ done (answer (requeue_in failed_requeue_duration) (some e))
            | none ↦ done (answer (requeue_in default_requeue_duration) none)
          ]))
        else pure (next adopted)

  abbrev pub conflict : AzurePolicyDefinition → String → Go (Step AzurePolicyDefinition)
  conflict def id = do
    ignored ← kube_update_status env (
        Object.definition (
          set_condition env condition_false "ImportConflict"
            (sprintf "annotation import-id %q differs from already bound policyDefinitionId %q"
              (id ∷ def.status.policy_definition_id ∷ []))
            def))
    pure (
        done (
          answer no_requeue (
            some (
              errorf
                "import conflict: annotation import-id %q differs from already bound policyDefinitionId %q"
                (id ∷ def.status.policy_definition_id ∷ [])))))

  -- The bound ID differs from the annotation's.
  abbrev is_rebinding : AzurePolicyDefinition → String → Bool
  is_rebinding def id =
      def.status.policy_definition_id /= "" && id /= def.status.policy_definition_id

  abbrev is_applied_once : AzurePolicyDefinition → String → Bool
  is_applied_once def mode =
      mode == import_mode_only_once
      && has_reason reason_applied_once (env.find_status_condition def.status.conditions "Ready")

  unfoldable pub handle_import : AzurePolicyDefinition → Go (Step AzurePolicyDefinition)
  unfolding ◌>>=◌ pure kube_update_status record_event record_if_set set_condition
      set_imported_condition set_drift_condition or_observe_only
  handle_import def =
      let id = annotation def.meta annotation_import_id in
      let mode = or_observe_only (annotation def.meta annotation_import_mode) in
      if id == ""
      then pure (next def)
      else if is_rebinding def id
      then conflict def id
      else if is_applied_once def mode
      then pure (done (answer (requeue_in default_requeue_duration) none))
      else (do drift ← svc.import id def; import_done def id mode drift)
