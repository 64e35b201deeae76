-- ===== src/Assignment/Lifecycle/Invariant.antt =====
-- What holds of an AzurePolicyAssignment object however often it is edited and reconciled.
use policy_operator.Base.{Bool, true, false, ◌≡◌, ◌≢◌, ◌/=◌, ap, full_text, text_full}
use policy_operator.Api.Assignment.{AzurePolicyAssignment}
use policy_operator.World.{Env, IsMachinery}
use policy_operator.Lifecycle.{Reaches, bound_is_held, stays_bound, goes_cleared, LetsGo}
use policy_operator.Assignment.Object.{PolicyAssignmentService, has_finalizer}
use policy_operator.Assignment.Wiring.{IsLawful}
use policy_operator.Assignment.Lifecycle.{Moves, MayGo, is_gone, is_bound, assignment_refines}

module _ (env : Env) (machinery : IsMachinery env) (svc : PolicyAssignmentService)
    (lawful : IsLawful svc) (recorder : Bool) (a b : AzurePolicyAssignment)
    (reaches : Reaches (Moves env svc recorder) a b) where
  -- Where apimachinery and the service meet their laws, a live assignment with a recorded ID holds
  -- the finalizer, if edits and stored writes of reconciles reach it from an assignment without a
  -- recorded ID.
  bound_assignment_is_held :
      a.status.assignment_id ≡ ""
      → b.meta.is_deleting ≡ false
      → b.status.assignment_id ≢ ""
      → has_finalizer env b ≡ true
  bound_assignment_is_held unbound live bound =
      bound_is_held is_gone (has_finalizer env) is_bound (MayGo env svc recorder)
        (Moves env svc recorder) (assignment_refines env machinery svc lawful recorder) reaches
        (ap (λ i. i /= "") unbound) live (full_text bound)

  -- Where apimachinery and the service meet their laws, edits and stored writes of reconciles take
  -- no recorded ID from an assignment.
  bound_assignment_stays_bound : a.status.assignment_id ≢ "" → b.status.assignment_id ≢ ""
  bound_assignment_stays_bound bound = text_full (
      stays_bound is_gone (has_finalizer env) is_bound (MayGo env svc recorder)
        (Moves env svc recorder) (assignment_refines env machinery svc lawful recorder) reaches
        (full_text bound))

  -- Where apimachinery and the service meet their laws, if an assignment with the finalizer reaches
  -- one without it by edits and stored writes of reconciles, some step on the way takes the
  -- finalizer from an object that is being deleted and cleared: it has no recorded ID, or its
  -- Delete succeeds at the start of a reconcile that writes it without the finalizer.
  pub held_assignment_goes_cleared :
      has_finalizer env a ≡ true
      → has_finalizer env b ≡ false
      → LetsGo is_gone (has_finalizer env) (MayGo env svc recorder) (Moves env svc recorder) a b
  held_assignment_goes_cleared held gone =
      goes_cleared is_gone (has_finalizer env) is_bound (MayGo env svc recorder)
        (Moves env svc recorder) (assignment_refines env machinery svc lawful recorder) reaches held
        gone
