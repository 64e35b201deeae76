-- ===== src/Assignment/Once.antt =====
-- A reconcile of an AzurePolicyAssignment makes at most one write to Kubernetes.
use policy_operator.Base.{suc, ◌≤◌, Bool, true, false, String, Option, none, some, ◌≡◌, arith}
use policy_operator.Failure.{Error, Result, ok, err}
use policy_operator.Api.Meta.{annotation, annotation_import_id, annotation_import_mode}
use policy_operator.Api.Assignment.{AzurePolicyAssignment}
use policy_operator.World.{Env, Trace}
use policy_operator.World.Try
use policy_operator.World.Go.{
  ◌>>=◌, pure, kube_update_status, record_event, record_if_set, returned,
}
use policy_operator.World.Go.Once.{OneWrite, written, once_later, once_by}
use policy_operator.World.Go.Quiet.{IsQuiet, assoc}
use policy_operator.Common.Reconcile.{or_observe_only, Step, done, next}
use policy_operator.Assignment.Object.{
  Live, PolicyAssignmentService, set_condition, set_imported_condition, set_drift_condition,
}
use policy_operator.Assignment.Wiring.{IsLawful}
use policy_operator.Assignment.Deletion.{handle_deletion}
use policy_operator.Assignment.Resolve.{resolve_policy_definition_id}
use policy_operator.Assignment.Apply.{
  store_created, existing, applied, apply, apply_unless, check_existing_assignment,
  reconcile_create_or_update,
}
use policy_operator.Assignment.Import.{handle_import, import_done}
use policy_operator.Assignment.Controller.{reconcile_fetched, after_import, after_resolve}

module _ (env : Env) (svc : PolicyAssignmentService) (recorder : Bool) (lawful : IsLawful svc) where
  deletion-OneWrite :
      (assignment : AzurePolicyAssignment) (t : Trace)
      → OneWrite (handle_deletion env svc recorder assignment) t
  unfolding handle_deletion
  deletion-OneWrite assignment t = ground (
    arith,
    lawful.kube-delete assignment.spec.scope assignment.status.assignment_id
        assignment.status.exemptions assignment.spec.identity t,
  )

  applied-OneWrite :
      (stored : AzurePolicyAssignment) (was_assigned : Bool) (failure : Option Error) (t : Trace)
      → OneWrite (applied env svc recorder stored was_assigned failure) t
  unfolding ◌>>=◌ kube_update_status record_if_set set_condition pure
  applied-OneWrite stored was_assigned none t = ground arith
  applied-OneWrite stored was_assigned (some e) t = ground arith

  apply-OneWrite :
      (assignment : AzurePolicyAssignment) (id : String) (was_assigned : Bool) (t : Trace)
      → OneWrite (apply env svc recorder assignment id was_assigned) t
  unfolding apply
  apply-OneWrite assignment id was_assigned t =
      once_later (svc.create_or_update assignment id)
        (λ r. applied env svc recorder (store_created r.0 assignment) was_assigned r.1) t
        (lawful.kube-create_or_update assignment id t)
        (λ r e.
          applied-OneWrite (store_created r.0 assignment) was_assigned r.1
            (svc.create_or_update assignment id t).1)

  after_get-OneWrite :
      (assignment : AzurePolicyAssignment) (id : String) (r : Result String) (t : Trace)
      → OneWrite
          (existing env svc recorder assignment r >>= apply_unless env svc recorder assignment id)
          t
  unfolding ◌>>=◌ kube_update_status record_if_set set_condition Try.pure pure
  after_get-OneWrite assignment id r t = ground (arith, apply-OneWrite assignment id false t)

  reconcile-OneWrite :
      (assignment : AzurePolicyAssignment) (id : String) (t : Trace)
      → OneWrite (reconcile_create_or_update env svc recorder assignment id) t
  unfolding reconcile_create_or_update check_existing_assignment
  reconcile-OneWrite assignment id t = ground (
    arith,
    apply-OneWrite assignment id true t,
    assoc (svc.get assignment) (existing env svc recorder assignment)
        (apply_unless env svc recorder assignment id) t,
    once_later (svc.get assignment)
        (λ r.
          existing env svc recorder assignment r >>= apply_unless env svc recorder assignment id)
        t (lawful.kube-get assignment t)
        (λ r e. after_get-OneWrite assignment id r (svc.get assignment t).1),
  )

  import_done-OneWrite :
      (assignment : AzurePolicyAssignment) (id mode : String) (r : Result Live) (t : Trace)
      → OneWrite (import_done env svc recorder assignment id mode r) t
  unfolding ◌>>=◌ kube_update_status record_event record_if_set set_condition set_imported_condition
      set_drift_condition pure
  import_done-OneWrite assignment id mode (ok live) t = ground arith
  import_done-OneWrite assignment id mode (err e) t = ground arith

  handle_import-OneWrite :
      (assignment : AzurePolicyAssignment) (definition : String) (t : Trace)
      → OneWrite (handle_import env svc recorder assignment definition) t
  unfolding handle_import
  handle_import-OneWrite assignment definition t =
      let id = annotation assignment.meta annotation_import_id in
      let mode = or_observe_only (annotation assignment.meta annotation_import_mode) in
      ground (
        arith,
        once_later (svc.import id assignment definition)
            (import_done env svc recorder assignment id mode) t
            (lawful.kube-import id assignment definition t)
            (λ r e.
              import_done-OneWrite assignment id mode r (svc.import id assignment definition t).1),
      )

  adopted_quietly :
      (assignment d : AzurePolicyAssignment) (definition : String) (t : Trace)
      → (handle_import env svc recorder assignment definition t).0 ≡ returned (next d)
      → IsQuiet (handle_import env svc recorder assignment definition) t
  unfolding handle_import
  adopted_quietly assignment d definition t e = ground (
    arith,
    lawful.kube-import (annotation assignment.meta annotation_import_id) assignment definition t,
  )

  after_import-OneWrite :
      (assignment : AzurePolicyAssignment) (definition : String) (t : Trace)
      (step : Step AzurePolicyAssignment)
      → (handle_import env svc recorder assignment definition t).0 ≡ returned step
      → written
          (after_import env svc recorder definition step
            (handle_import env svc recorder assignment definition t).1).1
        ≤ suc (written t)
  unfolding pure ◌>>=◌
  after_import-OneWrite assignment definition t (done a) e =
      handle_import-OneWrite assignment definition t
  after_import-OneWrite assignment definition t (next d) e = ground (
    arith,
    adopted_quietly assignment d definition t e,
    reconcile-OneWrite d definition (handle_import env svc recorder assignment definition t).1,
  )

  resolve-OneWrite :
      (assignment : AzurePolicyAssignment) (namespace : String) (t : Trace)
      → OneWrite (resolve_policy_definition_id env namespace assignment) t
  unfolding resolve_policy_definition_id
  resolve-OneWrite assignment namespace t = ground arith

  resolved_quietly :
      (assignment : AzurePolicyAssignment) (namespace id : String) (t : Trace)
      → (resolve_policy_definition_id env namespace assignment t).0 ≡ returned (next id)
      → IsQuiet (resolve_policy_definition_id env namespace assignment) t
  unfolding resolve_policy_definition_id
  resolved_quietly assignment namespace id t h = ground arith

  after_resolve-OneWrite :
      (assignment : AzurePolicyAssignment) (namespace : String) (t : Trace) (step : Step String)
      → (resolve_policy_definition_id env namespace assignment t).0 ≡ returned step
      → written
          (after_resolve env svc recorder assignment step
            (resolve_policy_definition_id env namespace assignment t).1).1
        ≤ suc (written t)
  unfolding pure
  after_resolve-OneWrite assignment namespace t (done a) e = resolve-OneWrite assignment namespace t
  after_resolve-OneWrite assignment namespace t (next id) e =
      let s = (resolve_policy_definition_id env namespace assignment t).1 in
      let quiet = resolved_quietly assignment namespace id t e in
      (rw quiet at (
        once_by (handle_import env svc recorder assignment id) (after_import env svc recorder id) s
          (handle_import-OneWrite assignment id s) (after_import-OneWrite assignment id s)))

  -- For a service that writes nothing to Kubernetes, a reconcile of an assignment makes at most one
  -- write to Kubernetes.
  pub assignment_writes_once :
      (assignment : AzurePolicyAssignment) (namespace : String) (t : Trace)
      → written (reconcile_fetched env svc recorder namespace assignment t).1 ≤ suc (written t)
  unfolding reconcile_fetched
  assignment_writes_once assignment namespace t = ground (
    arith,
    deletion-OneWrite assignment t,
    once_by (resolve_policy_definition_id env namespace assignment)
        (after_resolve env svc recorder assignment) t (resolve-OneWrite assignment namespace t)
        (after_resolve-OneWrite assignment namespace t),
  )
