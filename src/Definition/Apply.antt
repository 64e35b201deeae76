-- ===== src/Definition/Apply.antt =====
-- internal/controller/azurepolicydefinition_controller.go: checkExistingDefinition and
-- reconcileDefinition.
use policy_operator.Base.{
  Bool, true, false, String, Option, none, some, [], ◌∷◌, ◌==◌, if◌then◌else◌,
}
use policy_operator.Failure.{
  Error, Message, plain, sprintf, error_text, sprintf_error, Result, ok, err,
}
use policy_operator.Api.Meta.{
  annotation, annotation_import_mode, import_mode_only_once, reason_applied_once, condition_true,
  condition_false,
}
use policy_operator.Api.Definition.{AzurePolicyDefinition}
use policy_operator.World.{Env, Object, normal, warning}
use policy_operator.World.Go.{Go, pure, kube_update_status, record_if_set, ◌>>=◌, ◌>>◌}
use policy_operator.World.Try.{Try}
use policy_operator.Definition.Object.{DefinitionService, set_condition}

-- readyReason and readyMsg
unfoldable pub applied_reason : AzurePolicyDefinition → String
applied_reason def =
    if annotation def.meta annotation_import_mode == import_mode_only_once
    then reason_applied_once
    else "Reconciled"

unfoldable pub applied_message : AzurePolicyDefinition → Message
applied_message def = plain (
    if annotation def.meta annotation_import_mode == import_mode_only_once
    then "Policy definition applied once from import. No further changes will be applied to Azure."
    else "Policy definition successfully reconciled")

-- The object with the status of a successful write: the ID, the version and the Ready condition.
unfoldable pub applied_object : Env → AzurePolicyDefinition → String → AzurePolicyDefinition
unfolding set_condition
applied_object env def id =
    set_condition env condition_true (applied_reason def) (applied_message def) (record def {
      status = record def.status { policy_definition_id = id; applied_version = def.spec.version };
    })

module _ (env : Env) (svc : DefinitionService) (recorder : Bool) where
  abbrev pub existing : AzurePolicyDefinition → Result String → Try Bool
  existing def (err e) = pure (err e)
  existing def (ok id) = if id == "" then pure (ok false) else do
    let message =
        sprintf
          "Policy definition with the same ID already exists in Azure (%s). Use a different name for this definition."
          (id ∷ [])
    record_if_set recorder warning "PolicyDefinitionAlreadyExists" message
    ignored ← kube_update_status env (
        Object.definition
          (set_condition env condition_false "PolicyDefinitionAlreadyExists" message def))
    pure (ok true)

  unfoldable pub check_existing_definition : AzurePolicyDefinition → Try Bool
  unfolding ◌>>=◌ pure kube_update_status record_if_set set_condition
  check_existing_definition def = do id ← svc.get def; existing def id

  abbrev pub applied : AzurePolicyDefinition → Bool → Result String → Go (Option Error)
  applied def was_created (err e) = do
    record_if_set recorder warning "PolicyDefinitionReconcileFailed"
        (sprintf_error "Failed creating/updating policy definition: %v" [] e)
    ignored ←
        kube_update_status env (
          Object.definition
            (set_condition env condition_false "ReconcileFailed" (error_text e) def))
    pure (some e)
  applied def was_created (ok id) = do
    (if was_created
        then record_if_set recorder normal "PolicyDefinitionCreated"
            (sprintf "Created policy definition %q" (id ∷ []))
        else record_if_set recorder normal "PolicyDefinitionUpdated"
            (sprintf "Updated policy definition %q" (id ∷ [])))
    kube_update_status env (Object.definition (applied_object env def id))

  abbrev pub write_unless : AzurePolicyDefinition → Result Bool → Go (Option Error)
  write_unless def (err e) = pure (some e)
  write_unless def (ok true) = pure none
  write_unless def (ok false) = do written ← svc.create_or_update def; applied def true written

  unfoldable pub reconcile_definition : AzurePolicyDefinition → Go (Option Error)
  unfolding ◌>>=◌ pure kube_update_status record_if_set set_condition check_existing_definition
  reconcile_definition def =
      if def.status.policy_definition_id == ""
      then (do stop ← check_existing_definition def; write_unless def stop)
      else (do written ← svc.create_or_update def; applied def false written)
