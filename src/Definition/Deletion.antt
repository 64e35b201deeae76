-- ===== src/Definition/Deletion.antt =====
-- internal/controller/azurepolicydefinition_controller.go: handleDeletion. Log lines
-- are left out; `recorder` says that r.Recorder is set.
use policy_operator.Base.{Bool, Option, none, some, [], ◌∷◌, ◌==◌, ◌/=◌, not, if◌then◌else◌}
use policy_operator.Failure.{Error, sprintf, error_text, sprintf_error, Result, ok, err}
use policy_operator.Api.Meta.{
  annotation, annotation_import_mode, import_mode_observe_only, condition_false,
}
use policy_operator.Api.Definition.{AzurePolicyDefinition}
use policy_operator.World.{Env, Object, normal, warning}
use policy_operator.World.Go.{Go, pure, kube_update, kube_update_status, record_if_set, ◌>>=◌, ◌>>◌}
use policy_operator.Definition.Object.{
  DefinitionService, set_condition, has_finalizer, remove_finalizer,
}

module _ (env : Env) (svc : DefinitionService) (recorder : Bool) where
  abbrev deletion_failed : AzurePolicyDefinition → Error → Go (Option Error)
  deletion_failed def e = do
    record_if_set recorder warning "PolicyDefinitionDeleteFailed" (
        sprintf_error "Failed deleting policy definition %q: %v"
          (def.status.policy_definition_id ∷ []) e)
    ignored ←
        kube_update_status env
          (Object.definition (set_condition env condition_false "DeleteFailed" (error_text e) def))
    pure (some e)

  abbrev pub cleaned_up : AzurePolicyDefinition → Result (Unit {0}) → Go (Option Error)
  cleaned_up def (err e) = deletion_failed def e
  cleaned_up def (ok _) = do
    record_if_set recorder normal "PolicyDefinitionDeleted"
        (sprintf "Deleted policy definition %q" (def.status.policy_definition_id ∷ []))
    kube_update env (Object.definition (remove_finalizer env def))

  unfoldable pub handle_deletion : AzurePolicyDefinition → Go (Option Error)
  unfolding ◌>>=◌ pure kube_update kube_update_status record_if_set set_condition remove_finalizer
  handle_deletion def =
      if not (has_finalizer env def)
      then pure none
      else if annotation def.meta annotation_import_mode == import_mode_observe_only
      then kube_update env (Object.definition (remove_finalizer env def))
      else if def.status.policy_definition_id /= ""
      then (do deleted ← svc.delete def; cleaned_up def deleted)
      else kube_update env (Object.definition (remove_finalizer env def))
