-- ===== src/Initiative/Apply.antt =====
-- internal/controller/azurepolicyinitiative_controller.go: checkExistingInitiative and
-- reconcileInitiative.
use policy_operator.Base.{
  Bool, true, false, String, List, Option, none, some, [], ◌∷◌, ◌==◌, if◌then◌else◌,
}
use policy_operator.Failure.{
  Error, Message, plain, sprintf, error_text, sprintf_error, Result, ok, err,
}
use policy_operator.Api.Meta.{
  annotation, annotation_import_mode, import_mode_only_once, reason_applied_once, condition_true,
  condition_false,
}
use policy_operator.Api.Initiative.{AzurePolicyInitiative}
use policy_operator.World.{Env, Object, normal, warning}
use policy_operator.World.Go.{Go, pure, kube_update_status, record_if_set, ◌>>=◌, ◌>>◌}
use policy_operator.World.Try.{Try}
use policy_operator.Initiative.Object.{InitiativeService, set_condition}

-- readyReason and readyMsg
unfoldable pub applied_reason : AzurePolicyInitiative → String
applied_reason initiative =
    if annotation initiative.meta annotation_import_mode == import_mode_only_once
    then reason_applied_once
    else "Reconciled"

unfoldable pub applied_message : AzurePolicyInitiative → Message
applied_message initiative = plain (
    if annotation initiative.meta annotation_import_mode == import_mode_only_once
    then "Policy initiative applied once from import. No further changes will be applied to Azure."
    else "Policy initiative successfully reconciled")

-- The object with the status of a successful write: the ID, the version and the Ready condition.
unfoldable pub applied_object : Env → AzurePolicyInitiative → String → AzurePolicyInitiative
unfolding set_condition
applied_object env initiative id =
    set_condition env condition_true (applied_reason initiative) (applied_message initiative)
      (record initiative {
        status = record initiative.status {
          initiative_id = id;
          applied_version = initiative.spec.version;
        };
      })

module _ (env : Env) (svc : InitiativeService) (recorder : Bool) where
  abbrev pub existing : AzurePolicyInitiative → Result String → Try Bool
  existing initiative (err e) = pure (err e)
  existing initiative (ok id) = if id == "" then pure (ok false) else do
    let message =
        sprintf
          "Policy initiative with the same ID already exists in Azure (%s). Use a different name for this initiative."
          (id ∷ [])
    record_if_set recorder warning "PolicyInitiativeAlreadyExists" message
    ignored ← kube_update_status env (
        Object.initiative
          (set_condition env condition_false "PolicyInitiativeAlreadyExists" message initiative))
    pure (ok true)

  unfoldable pub check_existing_initiative : AzurePolicyInitiative → Try Bool
  unfolding ◌>>=◌ pure kube_update_status record_if_set set_condition
  check_existing_initiative initiative = do id ← svc.get initiative; existing initiative id

  abbrev pub applied : AzurePolicyInitiative → Bool → Result String → Go (Option Error)
  applied initiative was_created (err e) = do
    record_if_set recorder warning "PolicyInitiativeReconcileFailed"
        (sprintf_error "Failed creating/updating policy initiative: %v" [] e)
    ignored ← kube_update_status env (
        Object.initiative
          (set_condition env condition_false "ReconcileFailed" (error_text e) initiative))
    pure (some e)
  applied initiative was_created (ok id) = do
    (if was_created
        then record_if_set recorder normal "PolicyInitiativeCreated"
            (sprintf "Created policy initiative %q" (id ∷ []))
        else record_if_set recorder normal "PolicyInitiativeUpdated"
            (sprintf "Updated policy initiative %q" (id ∷ [])))
    kube_update_status env (Object.initiative (applied_object env initiative id))

  abbrev pub write_unless : AzurePolicyInitiative → List String → Result Bool → Go (Option Error)
  write_unless initiative resolved (err e) = pure (some e)
  write_unless initiative resolved (ok true) = pure none
  write_unless initiative resolved (ok false) = do
    written ← svc.create_or_update initiative resolved
    applied initiative true written

  unfoldable pub reconcile_initiative : AzurePolicyInitiative → List String → Go (Option Error)
  unfolding ◌>>=◌ pure kube_update_status record_if_set set_condition check_existing_initiative
  reconcile_initiative initiative resolved =
      if initiative.status.initiative_id == ""
      then (do stop ← check_existing_initiative initiative; write_unless initiative resolved stop)
      else (do written ← svc.create_or_update initiative resolved; applied initiative false written)
