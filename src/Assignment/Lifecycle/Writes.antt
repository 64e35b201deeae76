-- ===== src/Assignment/Lifecycle/Writes.antt =====
-- What the parts of a reconcile of an AzurePolicyAssignment write to Kubernetes.
use policy_operator.Base.{Bool, true, false, String, Option, none, some, ◌≡◌, ◌⊎◌, ◌∷◌, ◌/=◌, arith}
use policy_operator.Base.Lists.{ne-cons}
use policy_operator.Failure.{Error, Result}
use policy_operator.Api.Assignment.{AzurePolicyAssignment}
use policy_operator.World.{Env, Trace, Object, KubeCall, update, update_status}
use policy_operator.World.Go.{◌>>=◌, pure, kube_update_status, record_if_set}
use policy_operator.World.Try
use policy_operator.World.Go.Quiet.{Makes, made_later, assoc}
use policy_operator.World.Views.{kube_writes}
use policy_operator.Assignment.Object.{
  Created, PolicyAssignmentService, set_condition, remove_finalizer,
}
use policy_operator.Assignment.Wiring.{IsLawful}
use policy_operator.Assignment.Deletion.{handle_deletion}
use policy_operator.Assignment.Apply.{
  or_kept, store_created, existing, applied, apply, apply_unless, check_existing_assignment,
  reconcile_create_or_update,
}

-- A status that keeps the recorded ID.
abbrev pub KeepsId : AzurePolicyAssignment → KubeCall → Type 0
KeepsId assignment (update_status (Object.assignment d)) =
    d.status.assignment_id ≡ assignment.status.assignment_id
KeepsId assignment _ = ⊥

-- A status that keeps the recorded ID or has one.
abbrev pub Reports : AzurePolicyAssignment → KubeCall → Type 0
Reports assignment (update_status (Object.assignment d)) =
    (d.status.assignment_id ≡ assignment.status.assignment_id)
    ⊎ ((d.status.assignment_id /= "") ≡ true)
Reports assignment _ = ⊥

module _ (env : Env) (svc : PolicyAssignmentService) (recorder : Bool) (lawful : IsLawful svc) where
  pub deletion_writes :
      (assignment : AzurePolicyAssignment) (t : Trace) (w : KubeCall)
      → kube_writes (handle_deletion env svc recorder assignment t).1 ≡ w ∷ kube_writes t
      → (w ≡ update (Object.assignment (remove_finalizer env assignment))) ⊎ KeepsId assignment w
  unfolding handle_deletion
  deletion_writes assignment t w h = ground (
    arith,
    lawful.kube-delete assignment.spec.scope assignment.status.assignment_id
        assignment.status.exemptions assignment.spec.identity t,
    ne-cons w (kube_writes t),
  )

  -- The ID of one object is that of the other, or not empty.
  abbrev pub Adopts : AzurePolicyAssignment → AzurePolicyAssignment → Type 0
  Adopts assignment d =
      (d.status.assignment_id ≡ assignment.status.assignment_id)
      ⊎ ((d.status.assignment_id /= "") ≡ true)

  pub adopted_writes :
      (assignment d : AzurePolicyAssignment) (w : KubeCall)
      → Adopts assignment d
      → Reports d w
      → Reports assignment w
  adopted_writes assignment d w same h = ground arith

  kept_or_full : (old new : String) → (or_kept old new ≡ old) ⊎ ((or_kept old new /= "") ≡ true)
  kept_or_full old new = ground arith

  applied_writes :
      (stored : AzurePolicyAssignment) (was_assigned : Bool) (failure : Option Error) (t : Trace)
      (w : KubeCall)
      → Makes (applied env svc recorder stored was_assigned failure) t w
      → Reports stored w
  unfolding ◌>>=◌ kube_update_status record_if_set set_condition pure
  applied_writes stored was_assigned none t w h = ground arith
  applied_writes stored was_assigned (some e) t w h = ground arith

  stored_writes :
      (assignment : AzurePolicyAssignment) (created : Created) (was_assigned : Bool)
      (failure : Option Error) (t : Trace) (w : KubeCall)
      → Makes (applied env svc recorder (store_created created assignment) was_assigned failure) t w
      → Reports assignment w
  unfolding store_created
  stored_writes assignment created was_assigned failure t w h =
      adopted_writes assignment (store_created created assignment) w
        (kept_or_full assignment.status.assignment_id created.assignment_id)
        (applied_writes (store_created created assignment) was_assigned failure t w h)

  apply_writes :
      (assignment : AzurePolicyAssignment) (id : String) (was_assigned : Bool) (t : Trace)
      (w : KubeCall)
      → Makes (apply env svc recorder assignment id was_assigned) t w
      → Reports assignment w
  unfolding apply
  apply_writes assignment id was_assigned t w h =
      made_later (svc.create_or_update assignment id)
        (λ r. applied env svc recorder (store_created r.0 assignment) was_assigned r.1) t w
        (lawful.kube-create_or_update assignment id t)
        (λ r e s. stored_writes assignment r.0 was_assigned r.1 s w) h

  after_get :
      (assignment : AzurePolicyAssignment) (id : String) (r : Result String) (t : Trace)
      (w : KubeCall)
      → Makes
          (existing env svc recorder assignment r >>= apply_unless env svc recorder assignment id)
          t
          w
      → Reports assignment w
  unfolding ◌>>=◌ kube_update_status record_if_set set_condition Try.pure pure
  after_get assignment id r t w h =
      ground (arith, apply_writes assignment id false t w, ne-cons w (kube_writes t))

  pub reconcile_writes :
      (assignment : AzurePolicyAssignment) (id : String) (t : Trace) (w : KubeCall)
      → Makes (reconcile_create_or_update env svc recorder assignment id) t w
      → Reports assignment w
  unfolding reconcile_create_or_update check_existing_assignment
  reconcile_writes assignment id t w h = ground (
    arith,
    apply_writes assignment id true t w,
    assoc (svc.get assignment) (existing env svc recorder assignment)
        (apply_unless env svc recorder assignment id) t,
    made_later (svc.get assignment)
        (λ r.
          existing env svc recorder assignment r >>= apply_unless env svc recorder assignment id)
        t w (lawful.kube-get assignment t) (λ r e s. after_get assignment id r s w),
  )
