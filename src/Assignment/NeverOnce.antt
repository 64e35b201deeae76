-- ===== src/Assignment/NeverOnce.antt =====
-- No status that a write of an assignment stores has the reason AppliedOnce.
pub mod Reconciling
use policy_operator.Base.{
  Bool, true, false, String, Option, none, some, [], ◌∷◌, ◌≡◌, ◌==◌, refl, arith, ap, sym, ◌∙◌,
  eq_iff,
}
use policy_operator.Base.Lists.{ne-cons}
use policy_operator.Failure.{
  Error, Message, Result, ok, err, plain, sprintf, error_text, sprintf_error,
}
use policy_operator.Api.Meta.{
  ConditionStatus, annotation, annotation_import_mode, annotation_import_id, reason_applied_once,
  condition_true, condition_false,
}
use policy_operator.Api.Assignment.{AzurePolicyAssignment}
use policy_operator.World.{Env, Trace, Object, KubeCall, update_status, IsMachinery}
use policy_operator.World.Go.{
  ◌>>=◌, pure, kube_update_status, record_if_set, record_event, returned,
}
use policy_operator.World.Go.Quiet.{Makes, made_later, made_by}
use policy_operator.World.Views.{kube_writes}
use policy_operator.World.Try
use policy_operator.Common.Reconcile.{or_observe_only, has_reason, Step, done, next, ready}
use policy_operator.Assignment.Object.{Created, Live, PolicyAssignmentService, set_condition}
use policy_operator.Assignment.Wiring.{IsLawful}
use policy_operator.Assignment.Apply.{
  existing, applied, apply, apply_unless, store_created, check_existing_assignment,
  reconcile_create_or_update,
}
use policy_operator.Assignment.Import.{handle_import, import_done, with_live}
use policy_operator.Assignment.Object.{set_drift_condition, set_imported_condition}
use policy_operator.Assignment.Controller.{after_import, after_resolve, reconcile_fetched}
use policy_operator.Assignment.Resolve.{resolve_policy_definition_id, resolve_found}
use policy_operator.Assignment.Lifecycle.Live.{adopted_quietly}
use policy_operator.World.Go.Quiet.{assoc}
use policy_operator.World.Go.{Go, ask, kube_update}
use policy_operator.World.Go.Quiet.{IsQuiet}
use policy_operator.World.{kube_call, get, Kind}
use policy_operator.Assignment.Deletion.{handle_deletion, cleaned_up}
use policy_operator.Assignment.Lifecycle.Live.{resolved_quietly}
use policy_operator.World.{Fetched, found, not_found, get_failed}
use policy_operator.Failure.{kube}
use policy_operator.Api.Definition.{AzurePolicyDefinition}

-- A status whose Ready condition does not have the reason AppliedOnce, or no status.
abbrev pub NotOnce : Env → KubeCall → Type 0
NotOnce env (update_status (Object.assignment d)) =
    has_reason reason_applied_once (env.find_status_condition d.status.conditions "Ready") ≡ false
NotOnce env _ = Unit

module _ (env : Env) (machinery : IsMachinery env) where
  pub plain_condition :
      (status : ConditionStatus) (reason : String) (message : Message) (a : AzurePolicyAssignment)
      → (reason == reason_applied_once) ≡ false
      → NotOnce env (update_status (Object.assignment (set_condition env status reason message a)))
  unfolding set_condition
  plain_condition status reason message a other =
      rw (machinery.find-set_self a.status.conditions (ready status reason message a.meta)) other

module _ (env : Env) (machinery : IsMachinery env) (svc : PolicyAssignmentService) (recorder : Bool)
    (lawful : IsLawful svc) where
  stores :
      (status : ConditionStatus) (reason : String) (message : Message) (a : AzurePolicyAssignment)
      → (reason == reason_applied_once) ≡ false
      → NotOnce env (update_status (Object.assignment (set_condition env status reason message a)))
  stores = plain_condition env machinery

  applied-NotOnce :
      (stored : AzurePolicyAssignment) (was_assigned : Bool) (failure : Option Error) (t : Trace)
      (w : KubeCall)
      → Makes (applied env svc recorder stored was_assigned failure) t w
      → NotOnce env w
  unfolding ◌>>=◌ kube_update_status record_if_set pure
  applied-NotOnce stored was_assigned none t w h = ground (
    arith,
    stores condition_true "Reconciled" (plain "Policy assignment successfully reconciled") stored
        refl,
  )
  applied-NotOnce stored was_assigned (some e) t w h =
      ground (arith, stores condition_false "ReconcileFailed" (error_text e) stored refl)

  apply-NotOnce :
      (assignment : AzurePolicyAssignment) (id : String) (was_assigned : Bool) (t : Trace)
      (w : KubeCall)
      → Makes (apply env svc recorder assignment id was_assigned) t w
      → NotOnce env w
  unfolding apply
  apply-NotOnce assignment id was_assigned t w h =
      made_later (svc.create_or_update assignment id)
        (λ r. applied env svc recorder (store_created r.0 assignment) was_assigned r.1) t w
        (lawful.kube-create_or_update assignment id t)
        (λ r e s. applied-NotOnce (store_created r.0 assignment) was_assigned r.1 s w) h

  after_get-NotOnce :
      (assignment : AzurePolicyAssignment) (id : String) (r : Result String) (t : Trace)
      (w : KubeCall)
      → Makes
          (existing env svc recorder assignment r >>= apply_unless env svc recorder assignment id)
          t
          w
      → NotOnce env w
  unfolding ◌>>=◌ kube_update_status record_if_set Try.pure pure
  after_get-NotOnce assignment id (err e) t w h = ground (arith, ne-cons w (kube_writes t))
  after_get-NotOnce assignment id (ok taken) t w h = ground (
    arith,
    apply-NotOnce assignment id false t w,
    stores condition_false "PolicyAssignmentAlreadyExists"
        (sprintf
          "Policy assignment with the same ID already exists in Azure (%s). Use a different name for this assignment."
          (taken ∷ []))
        assignment refl,
  )

  pub reconcile-NotOnce :
      (assignment : AzurePolicyAssignment) (id : String) (t : Trace) (w : KubeCall)
      → Makes (reconcile_create_or_update env svc recorder assignment id) t w
      → NotOnce env w
  unfolding reconcile_create_or_update check_existing_assignment
  reconcile-NotOnce assignment id t w h = ground (
    arith,
    apply-NotOnce assignment id true t w,
    assoc (svc.get assignment) (existing env svc recorder assignment)
        (apply_unless env svc recorder assignment id) t,
    made_later (svc.get assignment)
        (λ r.
          existing env svc recorder assignment r >>= apply_unless env svc recorder assignment id)
        t w (lawful.kube-get assignment t) (λ r e s. after_get-NotOnce assignment id r s w),
  )
