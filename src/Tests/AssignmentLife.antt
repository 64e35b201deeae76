-- ===== src/Tests/AssignmentLife.antt =====
-- The theorems about the life of an AzurePolicyAssignment at a concrete input: a deleted object whose
-- Azure resource is deleted, and that is let go.
use policy_operator.World.Go.Once.{made_alone}
use policy_operator.Base.{true, [], ◌∷◌, ◌≡◌, refl}
use policy_operator.Base.Lists.{text_at}
use policy_operator.Api.Assignment.{AzurePolicyAssignment}
use policy_operator.World.{Object, update}
use policy_operator.Lifecycle.{Allowed, LetsGo, here, next}
use policy_operator.Assignment.Object.{PolicyAssignmentService, remove_finalizer, has_finalizer}
use policy_operator.Assignment.Deletion.{handle_deletion}
use policy_operator.Assignment.Controller.{reconcile_fetched}
use policy_operator.Assignment.Service.{delete}
use policy_operator.Exemption.Service
use policy_operator.Assignment.Exemptions.{delete_exemptions}
use policy_operator.Assignment.Roles.{delete_role_assignments, role_assignment_name}
use policy_operator.Assignment.Wiring.{service, service-IsLawful}
use policy_operator.Assignment.Lifecycle.{
  land, Moves, saved, MayGo, phase_of, is_gone, assignment_refines,
}
use policy_operator.Assignment.Lifecycle.Invariant.{held_assignment_goes_cleared}
use policy_operator.Base.{none, some, false, ◌==◌, if◌then◌else◌, ne_of_differ}
use policy_operator.Base.Text.{equal_fold}
use policy_operator.Failure.{wrapf, azure, error_text}
use policy_operator.Api.Meta.{condition_false}
use policy_operator.World.{KubeCall, update_status}
use policy_operator.World.Go.{returned}
use policy_operator.Assignment.Object.{set_condition, set_imported_condition}
use policy_operator.Assignment.Resolve.{resolve_policy_definition_id}
use policy_operator.Assignment.Import.{handle_import}
use policy_operator.Assignment.Exemptions.{reconcile_exemptions}
use policy_operator.Assignment.Service.{import}
use policy_operator.Assignment.Apply.{apply}
use policy_operator.Api.Assignment.{AssignmentExemptionSpec}
use policy_operator.Api.Meta.{requeue_in, failed_requeue_duration}
use policy_operator.Arm.{Resource, ArmExemption}
use policy_operator.World.{Env, Trace, Reply, reply, failed, arm_call, put_exemption}
use policy_operator.World.Views.{kube_writes}
use policy_operator.Common.Reconcile.{answer}
use policy_operator.Assignment.Object.{finalizer}
use policy_operator.Tests.Assignment.{assignment, waived, holding}
use policy_operator.Assignment.Forgetting.{failed_exemptions_forget}
use policy_operator.Assignment.NeverOnce.{NotOnce}
use policy_operator.Assignment.NeverOnce.Reconciling.{assignment_never_applied_once}
use policy_operator.Tests.Assignment.{observed, live_id}
use policy_operator.Tests.Server.{server, server-IsMachinery}
use policy_operator.Tests.Assignment.{dropped}

abbrev svc : PolicyAssignmentService
svc = service server

abbrev released : AzurePolicyAssignment
released = land (update (Object.assignment (remove_finalizer server dropped))) dropped

releases : Moves server svc true dropped released
unfolding reconcile_fetched handle_deletion delete delete_exemptions delete_role_assignments
    Service.delete role_assignment_name text_at
releases =
    saved "platform" [] (update (Object.assignment (remove_finalizer server dropped)))
      (made_alone (reconcile_fetched server svc true "platform" dropped) []
        (update (Object.assignment (remove_finalizer server dropped))) refl)
      refl

assignment_refines_example :
    Allowed
      (MayGo server svc true dropped)
      (phase_of server svc true dropped)
      (phase_of server svc true released)
assignment_refines_example =
    assignment_refines server server-IsMachinery svc (service-IsLawful server) true dropped released
      releases

held_assignment_goes_cleared_example :
    LetsGo is_gone
      (has_finalizer server)
      (MayGo server svc true)
      (Moves server svc true)
      dropped
      released
unfolding land remove_finalizer
held_assignment_goes_cleared_example =
    held_assignment_goes_cleared server server-IsMachinery svc (service-IsLawful server) true
      dropped released (next here releases) refl refl

-- What an import that Azure does not know stores.
abbrev unknown : KubeCall
unknown =
    let e = wrapf "fetching policy assignment %q: %w" (live_id ∷ []) (azure "404 Not Found") in
    update_status (
      Object.assignment (
        set_condition server condition_false "ImportFailed" (error_text e)
          (set_imported_condition server condition_false "ImportFailed" (error_text e) observed)))

assignment_never_applied_once_example : NotOnce server unknown
unfolding reconcile_fetched resolve_policy_definition_id handle_import import text_at equal_fold
assignment_never_applied_once_example =
    assignment_never_applied_once server server-IsMachinery svc true (service-IsLawful server)
      observed "platform" [] unknown
      (made_alone (reconcile_fetched server svc true "platform" observed) [] unknown refl)

-- The exemption with the display name Waiver is created.
abbrev one_only : Trace → Reply (Resource ArmExemption)
one_only (arm_call (put_exemption scope name params) ∷ u) = elim (params.display_name) [
  | none ↦ failed "404 Not Found"
  | some title ↦
      if title == "Waiver"
      then reply (record { id = some "/e/u2"; properties = none })
      else failed "404 Not Found"
]
one_only _ = failed "404 Not Found"

abbrev late : AssignmentExemptionSpec
late = record waived { display_name = "Late" }

-- A server that creates one of the two exemptions and refuses the other.
abbrev halfway : Env
halfway = record holding { exemption_reply = one_only }

-- An assignment with a recorded ID, a recorded exemption and two exemptions in its spec.
abbrev waiving : AzurePolicyAssignment
waiving =
    let a = assignment false (finalizer ∷ []) [] live_id in
    record a { spec = record a.spec { exemptions = waived ∷ late ∷ [] } }

failed_exemptions_forget_example :
    (d : AzurePolicyAssignment) × (kube_writes
        (apply halfway (service halfway) true waiving "/d/tags" true []).1
      ≡ update_status (Object.assignment d) ∷ [])
    × (d.status.exemptions ≡ waiving.status.exemptions)
    × (d.status.assignment_id ≡ live_id)
    × ((apply halfway (service halfway) true waiving "/d/tags" true []).0
        ≡ returned (
            answer
              (requeue_in failed_requeue_duration)
              (some (wrapf "reconciling exemption %q: %w" ("Late" ∷ []) (azure "404 Not Found")))))
unfolding reconcile_exemptions Service.create_or_update
failed_exemptions_forget_example =
    failed_exemptions_forget halfway true waiving "/d/tags" true []
      (record { id = some live_id; location = none; identity = none; properties = none }) live_id
      (wrapf "reconciling exemption %q: %w" ("Late" ∷ []) (azure "404 Not Found")) refl refl
      (ne_of_differ refl) refl
