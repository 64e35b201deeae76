-- ===== src/Assignment/Cleanup.antt =====
-- Deleting an AzurePolicyAssignment, and what a failed write keeps of its status.
use policy_operator.Base.Lists.{ne-cons}
use policy_operator.Failure.{ok}
use policy_operator.Assignment.Wiring.{IsLawful}
use policy_operator.Assignment.Object.{has_finalizer, remove_finalizer}
use policy_operator.World.{update}
use policy_operator.World.Go.{returned}
use policy_operator.Base.{eq_iff, ◌⊎◌, Bool, true, String, List, ◌≡◌, ◌∷◌, some, arith}
use policy_operator.Failure.{azure, error_text}
use policy_operator.Api.Meta.{condition_false, requeue_in, failed_requeue_duration}
use policy_operator.Common.Reconcile.{answer}
use policy_operator.Assignment.Wiring.{service}
use policy_operator.Api.Assignment.{AzurePolicyAssignment}
use policy_operator.World.{Env, Trace, failed, Object, update_status}
use policy_operator.World.Go.{returned}
use policy_operator.World.Views.{arm_calls, kube_writes}
use policy_operator.Assignment.Object.{PolicyAssignmentService, set_condition}
use policy_operator.Assignment.Deletion.{handle_deletion}
use policy_operator.Assignment.Apply.{store_created, apply}
use policy_operator.Assignment.Service.{create_or_update}
use policy_operator.Assignment.Controller.{reconcile_fetched}

-- The assignment with other annotations.
abbrev pub annotated : List (String × String) → AzurePolicyAssignment → AzurePolicyAssignment
annotated annotations assignment = record assignment {
  meta = record assignment.meta { annotations = annotations };
}

module _ (env : Env) (svc : PolicyAssignmentService) (recorder : Bool) where
  -- Reconciling a deleted assignment makes the same calls to Azure for any two sets of annotations,
  -- observe-only included.
  pub deletion_ignores_mode :
      (assignment : AzurePolicyAssignment) (annotations : List (String × String))
      (namespace : String) (t : Trace)
      → assignment.meta.is_deleting ≡ true
      → arm_calls
          (reconcile_fetched env svc recorder namespace (annotated annotations assignment) t).1
        ≡ arm_calls (reconcile_fetched env svc recorder namespace assignment t).1
  unfolding reconcile_fetched handle_deletion
  deletion_ignores_mode assignment annotations namespace t deleting = ground arith

  -- For a service whose Delete writes nothing to Kubernetes, if reconciling a deleted assignment
  -- with the finalizer writes it back without the finalizer and nothing else, then it has no
  -- recorded ID or the Delete succeeded.
  pub assignment_finalizer_goes_safely :
      (lawful : IsLawful svc) (assignment : AzurePolicyAssignment) (namespace : String) (t : Trace)
      → assignment.meta.is_deleting ≡ true
      → has_finalizer env assignment ≡ true
      → kube_writes (reconcile_fetched env svc recorder namespace assignment t).1
        ≡ update (Object.assignment (remove_finalizer env assignment)) ∷ kube_writes t
      → (assignment.status.assignment_id ≡ "")
        ⊎ ((svc.delete assignment.spec.scope assignment.status.assignment_id
              assignment.status.exemptions assignment.spec.identity t).0
            ≡ returned (ok tt))
  unfolding reconcile_fetched handle_deletion
  assignment_finalizer_goes_safely lawful assignment namespace t deleting final h = ground (
    arith,
    eq_iff assignment.status.assignment_id "",
    lawful.kube-delete assignment.spec.scope assignment.status.assignment_id
        assignment.status.exemptions assignment.spec.identity t,
    ne-cons (update (Object.assignment (remove_finalizer env assignment))) (kube_writes t),
  )

module _ (env : Env) (recorder : Bool) where
  -- Where Azure refuses the write of an assignment with an error, the status is stored with the
  -- Ready condition ReconcileFailed and otherwise unchanged, and the answer is the error and two
  -- minutes.
  refused_write_keeps :
      (assignment : AzurePolicyAssignment) (policy_definition_id : String) (was_assigned : Bool)
      (t : Trace) (text : String)
      → ((s : Trace) → env.assignment_reply s ≡ failed text)
      → (kube_writes
            (apply env (service env) recorder assignment policy_definition_id was_assigned t).1
          ≡ update_status (
              Object.assignment (
                set_condition env condition_false "ReconcileFailed"
                  (error_text (azure text))
                  assignment))
            ∷ kube_writes t)
        × ((apply env (service env) recorder assignment policy_definition_id was_assigned t).0
            ≡ returned (answer (requeue_in failed_requeue_duration) (some (azure text))))
  unfolding apply create_or_update store_created
  refused_write_keeps assignment policy_definition_id was_assigned t text refused =
      simp refused (ground arith)
