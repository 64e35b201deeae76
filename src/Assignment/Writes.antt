-- ===== src/Assignment/Writes.antt =====
-- What the AzurePolicyAssignment controller changes in Azure, and when.
use policy_operator.Base.{Bool, true, false, String, ◌≡◌, ◌≢◌, arith, eq_iff, none}
use policy_operator.Failure.{ok}
use policy_operator.Api.Meta.{
  annotation, annotation_import_id, annotation_import_mode, import_mode_observe_only, no_requeue,
}
use policy_operator.Api.Assignment.{AzurePolicyAssignment}
use policy_operator.World.{Env, Trace}
use policy_operator.World.Go.{Outcome, returned, panicked, ◌>>=◌, pure}
use policy_operator.World.Go.Keeps.{keeps}
use policy_operator.World.Views.{arm_writes, arm_calls}
use policy_operator.Common.Reconcile.{or_observe_only, Step, done, next, answer}
use policy_operator.Assignment.Object.{PolicyAssignmentService, has_finalizer}
use policy_operator.Assignment.Wiring.{IsLawful}
use policy_operator.Assignment.Deletion.{handle_deletion}
use policy_operator.Assignment.Resolve.{resolve_policy_definition_id}
use policy_operator.Assignment.Apply.{reconcile_create_or_update, check_existing_assignment}
use policy_operator.Assignment.Import.{handle_import}
use policy_operator.Assignment.Controller.{reconcile_fetched, after_resolve}

-- the import did not stop the reconcile
abbrev goes_on : Outcome (Step AzurePolicyAssignment) → Bool
goes_on (returned (next assignment)) = true
goes_on (returned (done a)) = false
goes_on panicked = false

module _ (env : Env) (svc : PolicyAssignmentService) (recorder : Bool) where
  -- Reconciling an assignment that does not hold the finalizer calls nothing in Azure.
  no_assignment_finalizer_no_calls :
      (assignment : AzurePolicyAssignment) (namespace : String) (t : Trace)
      → has_finalizer env assignment ≡ false
      → arm_calls (reconcile_fetched env svc recorder namespace assignment t).1 ≡ arm_calls t
  unfolding reconcile_fetched handle_deletion
  no_assignment_finalizer_no_calls assignment namespace t missing = ground arith

module _ (env : Env) (svc : PolicyAssignmentService) (recorder : Bool) (lawful : IsLawful svc) where
  -- For a service whose lookups write nothing, if Get finds an ID for an assignment without a
  -- recorded one, nothing is written to Azure and the answer is neither an error nor a requeue.
  taken_assignment_name_writes :
      (assignment : AzurePolicyAssignment) (policy_definition_id : String) (t : Trace) (id : String)
      → assignment.status.assignment_id ≡ ""
      → (svc.get assignment t).0 ≡ returned (ok id)
      → id ≢ ""
      → (arm_writes
            (reconcile_create_or_update env svc recorder assignment policy_definition_id t).1
          ≡ arm_writes t)
        × ((reconcile_create_or_update env svc recorder assignment policy_definition_id t).0
            ≡ returned (answer no_requeue none))
  unfolding reconcile_create_or_update check_existing_assignment
  taken_assignment_name_writes assignment policy_definition_id t id unbound found taken =
      simp unbound (ground (arith, eq_iff id "", lawful.writes-get assignment t))

  writes-handle_import :
      (assignment : AzurePolicyAssignment) (policy_definition_id : String) (t : Trace)
      → arm_writes (handle_import env svc recorder assignment policy_definition_id t).1
        ≡ arm_writes t
  unfolding handle_import
  writes-handle_import assignment policy_definition_id t = ground (
    arith,
    lawful.writes-import (annotation assignment.meta annotation_import_id) assignment
        policy_definition_id t,
  )

  observe_only_stops :
      (assignment : AzurePolicyAssignment) (policy_definition_id : String) (t : Trace)
      → annotation assignment.meta annotation_import_id ≢ ""
      → or_observe_only (annotation assignment.meta annotation_import_mode)
        ≡ import_mode_observe_only
      → goes_on (handle_import env svc recorder assignment policy_definition_id t).0 ≡ false
  unfolding handle_import
  observe_only_stops assignment policy_definition_id t bound mode = ground (
    arith,
    eq_iff (annotation assignment.meta annotation_import_id) "",
    eq_iff (or_observe_only (annotation assignment.meta annotation_import_mode))
        import_mode_observe_only,
  )

  observe_only_after :
      (assignment : AzurePolicyAssignment) (step : Step String) (t : Trace)
      → annotation assignment.meta annotation_import_id ≢ ""
      → or_observe_only (annotation assignment.meta annotation_import_mode)
        ≡ import_mode_observe_only
      → arm_writes (after_resolve env svc recorder assignment step t).1 ≡ arm_writes t
  unfolding ◌>>=◌ pure
  observe_only_after assignment (done a) t bound mode = ground arith
  observe_only_after assignment (next id) t bound mode =
      ground
        (arith, writes-handle_import assignment id t, observe_only_stops assignment id t bound mode)

  writes-resolve :
      (assignment : AzurePolicyAssignment) (namespace : String) (t : Trace)
      → arm_writes (resolve_policy_definition_id env namespace assignment t).1 ≡ arm_writes t
  unfolding resolve_policy_definition_id
  writes-resolve assignment namespace t = ground arith

  -- For a service whose lookups write nothing, reconciling an assignment with an import ID that is
  -- not being deleted and whose mode is observe-only or unset makes no write to Azure.
  pub assignment_observe_only_writes :
      (assignment : AzurePolicyAssignment) (namespace : String) (t : Trace)
      → assignment.meta.is_deleting ≡ false
      → annotation assignment.meta annotation_import_id ≢ ""
      → or_observe_only (annotation assignment.meta annotation_import_mode)
        ≡ import_mode_observe_only
      → arm_writes (reconcile_fetched env svc recorder namespace assignment t).1 ≡ arm_writes t
  unfolding reconcile_fetched
  assignment_observe_only_writes assignment namespace t live bound mode = ground (
    arith,
    keeps arm_writes (resolve_policy_definition_id env namespace assignment)
        (after_resolve env svc recorder assignment) t (writes-resolve assignment namespace t)
        (λ step s. observe_only_after assignment step s bound mode),
  )
