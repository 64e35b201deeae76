-- ===== src/Exemption/Laws.antt =====
-- The AzurePolicyExemption controller: when it calls Azure, under which name, and when its finalizer goes.
use policy_operator.Base.{Bool, true, false, String, ◌<>◌, ◌≡◌, ◌≢◌, ◌⊎◌, ◌∷◌, arith, eq_iff}
use policy_operator.Base.Lists.{ne-cons}
use policy_operator.Base.Text.{NoSlash, last_segment-append}
use policy_operator.Common.Paths.{not_empty}
use policy_operator.Failure.{ok}
use policy_operator.Api.Assignment.{AzurePolicyAssignment}
use policy_operator.Api.Exemption.{AzurePolicyExemption}
use policy_operator.World.{
  Event, Env, Trace, Object, update, found, put_exemption, delete_exemption, kube_call, get, Kind,
}
use policy_operator.World.Go.{returned}
use policy_operator.World.Views.{arm_calls, arm_writes, kube_writes}
use policy_operator.Exemption.Object.{ExemptionService, has_finalizer, remove_finalizer}
use policy_operator.Exemption.Service.{create_or_update, delete, exemption_params}
use policy_operator.Exemption.Controller.{reconcile_fetched, handle_deletion, resolve_assignment}

abbrev pub service : Env → ExemptionService
service env = record { create_or_update = create_or_update env; delete = delete env }

-- Reconciling touches Kubernetes only in the controller.
pub record IsLawful (svc : ExemptionService) : Type 0 where
  pub kube-delete :
      (scope id : String) (t : Trace) → kube_writes (svc.delete scope id t).1 ≡ kube_writes t
  pub kube-create_or_update :
      (exemption : AzurePolicyExemption) (t : Trace)
      → kube_writes (svc.create_or_update exemption t).1 ≡ kube_writes t

pub service-IsLawful : (env : Env) → IsLawful (service env)
unfolding create_or_update delete
service-IsLawful env = record {
  kube-delete = λ scope id t. ground arith;
  kube-create_or_update = λ exemption t. ground arith;
}

module _ (env : Env) (svc : ExemptionService) (recorder : Bool) where
  -- Reconciling an exemption that does not hold the finalizer calls nothing in Azure.
  no_exemption_finalizer_no_calls :
      (exemption : AzurePolicyExemption) (t : Trace)
      → has_finalizer env exemption ≡ false
      → arm_calls (reconcile_fetched env svc recorder exemption t).1 ≡ arm_calls t
  unfolding reconcile_fetched handle_deletion
  no_exemption_finalizer_no_calls exemption t missing = ground arith

  abbrev lookup : AzurePolicyExemption → Event
  lookup exemption = kube_call (
      get Kind.assignment (record {
        namespace = exemption.meta.namespace;
        name = exemption.spec.policy_assignment_ref;
      }))

  -- Reconciling an exemption that is not being deleted, gives a policyAssignmentRef and no
  -- policyAssignmentId, and refers to an assignment without an ID, calls nothing in Azure.
  unready_reference_waits :
      (exemption : AzurePolicyExemption) (assignment : AzurePolicyAssignment) (t : Trace)
      → exemption.meta.is_deleting ≡ false
      → exemption.spec.policy_assignment_ref ≢ ""
      → exemption.spec.policy_assignment_id ≡ ""
      → ((s : Trace) → env.assignment_object s ≡ found assignment)
      → assignment.status.assignment_id ≡ ""
      → arm_calls (reconcile_fetched env svc recorder exemption t).1 ≡ arm_calls t
  unfolding reconcile_fetched resolve_assignment
  unready_reference_waits exemption assignment t live by_ref no_id found_it unready = ground (
    arith,
    eq_iff exemption.spec.policy_assignment_ref "",
    eq_iff exemption.spec.policy_assignment_id "",
    eq_iff assignment.status.assignment_id "",
    found_it (lookup exemption ∷ t),
  )

  -- For a service whose Delete writes nothing to Kubernetes, if reconciling a deleted exemption
  -- with the finalizer writes it back without the finalizer and nothing else, then it has no
  -- recorded ID or the Delete succeeded.
  pub exemption_finalizer_goes_safely :
      (lawful : IsLawful svc) (exemption : AzurePolicyExemption) (t : Trace)
      → exemption.meta.is_deleting ≡ true
      → has_finalizer env exemption ≡ true
      → kube_writes (reconcile_fetched env svc recorder exemption t).1
        ≡ update (Object.exemption (remove_finalizer env exemption)) ∷ kube_writes t
      → (exemption.status.exemption_id ≡ "")
        ⊎ ((svc.delete exemption.spec.scope exemption.status.exemption_id t).0 ≡ returned (ok tt))
  unfolding reconcile_fetched handle_deletion
  exemption_finalizer_goes_safely lawful exemption t deleting final h = ground (
    arith,
    eq_iff exemption.status.exemption_id "",
    lawful.kube-delete exemption.spec.scope exemption.status.exemption_id t,
    ne-cons (update (Object.exemption (remove_finalizer env exemption))) (kube_writes t),
  )

module _ (env : Env) where
  -- For an exemption whose recorded ID ends in a slash and a name without slashes, CreateOrUpdate
  -- writes and Delete deletes the exemption of that name at its scope.
  pub recorded_exemption_name :
      (exemption : AzurePolicyExemption) (parent name : String) (t : Trace)
      → exemption.status.exemption_id ≡ parent <> String.◌∷◌ "/" name
      → NoSlash name
      → (arm_writes (create_or_update env exemption t).1
          ≡ put_exemption exemption.spec.scope name (exemption_params env exemption.spec)
            ∷ arm_writes t)
        × (arm_writes (delete env exemption.spec.scope exemption.status.exemption_id t).1
            ≡ delete_exemption exemption.spec.scope name ∷ arm_writes t)
  unfolding create_or_update delete
  recorded_exemption_name exemption parent name t recorded n =
      rw (recorded, not_empty parent name, last_segment-append parent name n) (ground arith)
