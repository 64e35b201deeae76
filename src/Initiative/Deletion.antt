-- ===== src/Initiative/Deletion.antt =====
-- internal/controller/azurepolicyinitiative_controller.go: handleDeletion. Log lines
-- are left out; `recorder` says that r.Recorder is set.
use policy_operator.Base.{Bool, Option, none, some, [], ◌∷◌, ◌==◌, ◌/=◌, not, if◌then◌else◌}
use policy_operator.Failure.{Error, sprintf, error_text, sprintf_error, Result, ok, err}
use policy_operator.Api.Meta.{
  annotation, annotation_import_mode, import_mode_observe_only, condition_false,
}
use policy_operator.Api.Initiative.{AzurePolicyInitiative}
use policy_operator.World.{Env, Object, normal, warning}
use policy_operator.World.Go.{Go, pure, kube_update, kube_update_status, record_if_set, ◌>>=◌, ◌>>◌}
use policy_operator.Initiative.Object.{
  InitiativeService, set_condition, has_finalizer, remove_finalizer,
}

module _ (env : Env) (svc : InitiativeService) (recorder : Bool) where
  abbrev deletion_failed : AzurePolicyInitiative → Error → Go (Option Error)
  deletion_failed initiative e = do
    record_if_set recorder warning "PolicyInitiativeDeleteFailed" (
        sprintf_error "Failed deleting policy initiative %q: %v"
          (initiative.status.initiative_id ∷ []) e)
    ignored ← kube_update_status env (
        Object.initiative
          (set_condition env condition_false "DeleteFailed" (error_text e) initiative))
    pure (some e)

  abbrev cleaned_up : AzurePolicyInitiative → Result (Unit {0}) → Go (Option Error)
  cleaned_up initiative (err e) = deletion_failed initiative e
  cleaned_up initiative (ok _) = do
    record_if_set recorder normal "PolicyInitiativeDeleted"
        (sprintf "Deleted policy initiative %q" (initiative.status.initiative_id ∷ []))
    kube_update env (Object.initiative (remove_finalizer env initiative))

  unfoldable pub handle_deletion : AzurePolicyInitiative → Go (Option Error)
  unfolding ◌>>=◌ pure kube_update kube_update_status record_if_set set_condition remove_finalizer
  handle_deletion initiative =
      if not (has_finalizer env initiative)
      then pure none
      else if annotation initiative.meta annotation_import_mode == import_mode_observe_only
      then kube_update env (Object.initiative (remove_finalizer env initiative))
      else if initiative.status.initiative_id /= ""
      then (do deleted ← svc.delete initiative; cleaned_up initiative deleted)
      else kube_update env (Object.initiative (remove_finalizer env initiative))
