-- ===== src/Exemption/Controller.antt =====
-- internal/controller/azurepolicyexemption_controller.go: Reconcile, cut into its three parts.
use policy_operator.Base.{
  Bool, true, false, String, Option, none, some, [], ◌∷◌, ◌==◌, ◌/=◌, ◌&&◌, not, if◌then◌else◌,
}
use policy_operator.Failure.{
  Error, kube, plain, sprintf, error_text, sprintf_error, Result, ok, err,
}
use policy_operator.Api.Meta.{
  NamespacedName, no_requeue, requeue_in, default_requeue_duration, condition_true, condition_false,
}
use policy_operator.Api.Assignment.{AzurePolicyAssignment}
use policy_operator.Api.Exemption.{AzurePolicyExemption}
use policy_operator.World.{
  Env, kube_call, get, Kind, Object, normal, warning, Fetched, found, not_found, get_failed,
}
use policy_operator.World.Go.{
  Go, ask, pure, kube_update, kube_update_status, record_if_set, ◌>>=◌, ◌>>◌,
}
use policy_operator.Common.Reconcile.{Answer, answer, Step, done, next}
use policy_operator.Exemption.Object.{
  ExemptionService, set_condition, has_finalizer, add_finalizer, remove_finalizer,
}

module _ (env : Env) (svc : ExemptionService) (recorder : Bool) where
  abbrev deletion_failed : AzurePolicyExemption → Error → Go (Option Error)
  deletion_failed exemption e = do
    record_if_set recorder warning "PolicyExemptionDeleteFailed" (
        sprintf_error "Failed deleting policy exemption %q: %v" (exemption.status.exemption_id ∷ [])
          e)
    ignored ← kube_update_status env (
        Object.exemption
          (set_condition env condition_false "DeleteFailed" (error_text e) exemption))
    pure (some e)

  abbrev cleaned_up : AzurePolicyExemption → Result (Unit {0}) → Go (Option Error)
  cleaned_up exemption (err e) = deletion_failed exemption e
  cleaned_up exemption (ok _) = do
    record_if_set recorder normal "PolicyExemptionDeleted"
        (sprintf "Deleted policy exemption %q" (exemption.status.exemption_id ∷ []))
    kube_update env (Object.exemption (remove_finalizer env exemption))

  unfoldable pub handle_deletion : AzurePolicyExemption → Go (Option Error)
  unfolding ◌>>=◌ pure kube_update kube_update_status record_if_set set_condition remove_finalizer
  handle_deletion exemption =
      if not (has_finalizer env exemption)
      then pure none
      else if exemption.status.exemption_id /= ""
      then (do
        deleted ← svc.delete exemption.spec.scope exemption.status.exemption_id
        cleaned_up exemption deleted)
      else kube_update env (Object.exemption (remove_finalizer env exemption))

  abbrev ref_failed : AzurePolicyExemption → Error → Go (Step AzurePolicyExemption)
  ref_failed exemption e = do
    ignored ← kube_update_status env (
        Object.exemption (
          set_condition env condition_false "RefResolutionFailed"
            (sprintf_error "policyAssignmentRef %q not found: %v"
              (exemption.spec.policy_assignment_ref ∷ []) e)
            exemption))
    pure (done (answer no_requeue (some e)))

  abbrev resolve_found :
      AzurePolicyExemption → Fetched AzurePolicyAssignment → Go (Step AzurePolicyExemption)
  resolve_found exemption (not_found text) = ref_failed exemption (kube true text)
  resolve_found exemption (get_failed text) = ref_failed exemption (kube false text)
  resolve_found exemption (found assignment) =
      if assignment.status.assignment_id == ""
      then (do
        ignored ← kube_update_status env (
            Object.exemption (
              set_condition env condition_false "RefNotReady"
                (sprintf
                  "policyAssignmentRef %q has not yet been reconciled (AssignmentID is empty)"
                  (exemption.spec.policy_assignment_ref ∷ []))
                exemption))
        pure (done (answer (record { requeue = true; requeue_after = 0 }) none)))
      else pure (
          next (record exemption {
            spec = record exemption.spec { policy_assignment_id = assignment.status.assignment_id };
          }))

  -- Resolve policyAssignmentRef, unless policyAssignmentId is set.
  unfoldable pub resolve_assignment : AzurePolicyExemption → Go (Step AzurePolicyExemption)
  unfolding ◌>>=◌ ask pure kube_update_status set_condition
  resolve_assignment exemption =
      if exemption.spec.policy_assignment_ref /= "" && exemption.spec.policy_assignment_id == ""
      then (do
        object ←
            ask
              (kube_call (
                get Kind.assignment (record {
                  namespace = exemption.meta.namespace;
                  name = exemption.spec.policy_assignment_ref;
                })))
              env.assignment_object
        resolve_found exemption object)
      else pure (next exemption)

  abbrev status_written : Option Error → Answer
  status_written (some e) = answer no_requeue (some e)
  status_written none = answer (requeue_in default_requeue_duration) none

  abbrev pub applied : AzurePolicyExemption → Result String → Go Answer
  applied exemption (err e) = do
    record_if_set recorder warning "PolicyExemptionReconcileFailed"
        (sprintf_error "Failed creating/updating policy exemption: %v" [] e)
    ignored ← kube_update_status env (
        Object.exemption
          (set_condition env condition_false "ReconcileFailed" (error_text e) exemption))
    pure (answer no_requeue (some e))
  applied exemption (ok id) = do
    (if exemption.status.exemption_id == ""
        then record_if_set recorder normal "PolicyExemptionCreated"
            (sprintf "Created policy exemption %q" (id ∷ []))
        else record_if_set recorder normal "PolicyExemptionUpdated"
            (sprintf "Updated policy exemption %q" (id ∷ [])))
    failure ← kube_update_status env (
        Object.exemption (
          set_condition env condition_true "Reconciled"
            (plain "Policy exemption successfully reconciled")
            (record exemption { status = record exemption.status { exemption_id = id } })))
    pure (status_written failure)

  unfoldable pub reconcile_exemption : AzurePolicyExemption → Go Answer
  unfolding ◌>>=◌ pure kube_update_status record_if_set set_condition
  reconcile_exemption exemption = do
    written ← svc.create_or_update exemption
    applied exemption written

  abbrev pub after_resolve : Step AzurePolicyExemption → Go Answer
  after_resolve (done a) = pure a
  after_resolve (next exemption) = reconcile_exemption exemption

  unfoldable pub reconcile_fetched : AzurePolicyExemption → Go Answer
  unfolding ◌>>=◌ pure kube_update add_finalizer
  reconcile_fetched exemption =
      if exemption.meta.is_deleting
      then (do failure ← handle_deletion exemption; pure (answer no_requeue failure))
      else if not (has_finalizer env exemption)
      then (do
        failure ← kube_update env (Object.exemption (add_finalizer env exemption))
        pure (answer no_requeue failure))
      else (do step ← resolve_assignment exemption; after_resolve step)

  -- client.IgnoreNotFound of the error of Get
  abbrev fetched : Fetched AzurePolicyExemption → Go Answer
  fetched (found exemption) = reconcile_fetched exemption
  fetched (not_found text) = pure (answer no_requeue none)
  fetched (get_failed text) = pure (answer no_requeue (some (kube false text)))

  unfoldable pub reconcile : NamespacedName → Go Answer
  unfolding ◌>>=◌ ask pure reconcile_fetched
  reconcile req = do
    object ← ask (kube_call (get Kind.exemption req)) env.exemption_object
    fetched object
