-- ===== src/Assignment/Forgetting.antt =====
-- What a failing inline exemption leaves in the status of an assignment.
use policy_operator.Base.{Bool, String, none, some, ◌∷◌, ◌≡◌, ◌≢◌, refl, arith, eq_iff}
use policy_operator.Failure.{Error, error_text, err}
use policy_operator.Api.Meta.{requeue_in, failed_requeue_duration, condition_false}
use policy_operator.Api.Assignment.{AzurePolicyAssignment}
use policy_operator.Arm.{AssignmentResource}
use policy_operator.World.{Env, Trace, Object, update_status, arm_call, put_assignment, reply}
use policy_operator.World.Go.{returned}
use policy_operator.World.Views.{kube_writes}
use policy_operator.Common.Naming.{or_empty}
use policy_operator.Common.Reconcile.{answer}
use policy_operator.Assignment.Object.{Created, set_condition}
use policy_operator.Assignment.Payload.{assignment_params, arm_identity, arm_location}
use policy_operator.Assignment.Exemptions.{reconcile_exemptions}
use policy_operator.Assignment.Service.{create_or_update, assignment_name, principal_of}
use policy_operator.Assignment.Service.Quiet.{kube-create_or_update}
use policy_operator.Assignment.Wiring.{service}
use policy_operator.Assignment.Apply.{store_created, apply}

module _ (env : Env) (recorder : Bool) (assignment : AzurePolicyAssignment)
    (policy_definition_id : String) (was_assigned : Bool) (t : Trace) where
  -- The trace when the Create of the assignment is answered.
  abbrev created_at : Trace
  created_at =
      arm_call (
        put_assignment assignment.spec.scope (assignment_name assignment) (arm_location assignment)
          (arm_identity assignment) (assignment_params env assignment.spec policy_definition_id))
      ∷ t

  module _ (r : AssignmentResource) (id : String) (e : Error)
      (served : env.assignment_reply created_at ≡ reply r) (identified : r.id ≡ some id)
      (given : id ≢ "")
      (failure : (reconcile_exemptions env id assignment.spec.exemptions
          assignment.status.exemptions created_at).0
        ≡ returned (err e)) where
    abbrev known_so_far : Created
    known_so_far = record {
      assignment_id = id;
      assigned_location = or_empty r.location;
      mi_principal_id = principal_of r.identity;
      exemptions = none;
    }

    abbrev stored : AzurePolicyAssignment
    stored =
        set_condition env condition_false "ReconcileFailed" (error_text e)
          (store_created known_so_far assignment)

    create_fails :
        (create_or_update env assignment policy_definition_id t).0 ≡ returned (known_so_far, some e)
    unfolding create_or_update
    create_fails = ground arith

    apply_fails :
        (kube_writes
            (apply env (service env) recorder assignment policy_definition_id was_assigned t).1
          ≡ update_status (Object.assignment stored) ∷ kube_writes t)
        × ((apply env (service env) recorder assignment policy_definition_id was_assigned t).0
            ≡ returned (answer (requeue_in failed_requeue_duration) (some e)))
    unfolding apply
    apply_fails =
        ground (arith, create_fails, kube-create_or_update env assignment policy_definition_id t)

    -- If Azure answers the write of an assignment with an ID that is not empty, and reconciling its
    -- inline exemptions then fails, the only write to Kubernetes of applying it is a status that
    -- has that ID and keeps the recorded exemptions, whatever the loop created, and the error is
    -- returned with the requeue time of a failure.
    pub failed_exemptions_forget :
        (d : AzurePolicyAssignment) × (kube_writes
            (apply env (service env) recorder assignment policy_definition_id was_assigned t).1
          ≡ update_status (Object.assignment d) ∷ kube_writes t)
        × (d.status.exemptions ≡ assignment.status.exemptions)
        × (d.status.assignment_id ≡ id)
        × ((apply env (service env) recorder assignment policy_definition_id was_assigned t).0
            ≡ returned (answer (requeue_in failed_requeue_duration) (some e)))
    unfolding set_condition store_created
    failed_exemptions_forget =
        (stored, apply_fails.0, refl, ground (arith, eq_iff id ""), apply_fails.1)
