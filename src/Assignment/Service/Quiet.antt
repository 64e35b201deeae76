-- ===== src/Assignment/Service/Quiet.antt =====
-- Creating or updating an assignment, its exemptions and its role assignments touches nothing in
-- Kubernetes.
use policy_operator.Base.{String, ◌≡◌, List, [], ◌∷◌, Option, none, some, arith}
use policy_operator.Base.Lists.{Dict}
use policy_operator.Failure.{Result, ok, err}
use policy_operator.Api.Assignment.{
  AzurePolicyAssignment, AssignmentExemptionSpec, AssignmentExemptionStatus,
}
use policy_operator.World.{Env, Trace}
use policy_operator.World.Go
use policy_operator.World.Go.{arm_command}
use policy_operator.World.Go.Keeps.{keeps}
use policy_operator.World.Try.{Try}
use policy_operator.World.Views.{kube_writes}
use policy_operator.Exemption.Service
use policy_operator.Arm.{AssignmentResource}
use policy_operator.World.{arm_call, put_assignment, Reply, reply, failed}
use policy_operator.Assignment.Payload.{assignment_params, arm_identity, arm_location}
use policy_operator.Assignment.Object.{Created}
use policy_operator.Assignment.Roles.{wrap}
use policy_operator.Assignment.Roles.Quiet.{kube-reconcile_role_assignments}
use policy_operator.Assignment.Exemptions.{
  create_exemptions, delete_removed, reconcile_exemptions, names, known, synthetic,
}
use policy_operator.Assignment.Service.{
  create_or_update, after_create, identified, with_exemptions, with_roles, assignment_name,
}

module _ (env : Env) (assignment_id : String) where
  abbrev one : Dict AssignmentExemptionStatus → AssignmentExemptionSpec → Try String
  one existing spec =
      wrap "reconciling exemption %q: %w" (spec.display_name ∷ [])
        (Service.create_or_update env (synthetic assignment_id existing spec))

  kube-one :
      (existing : Dict AssignmentExemptionStatus) (spec : AssignmentExemptionSpec) (t : Trace)
      → kube_writes (one existing spec t).1 ≡ kube_writes t
  unfolding Service.create_or_update
  kube-one existing spec t = ground arith

  kube-create_exemptions :
      (existing : Dict AssignmentExemptionStatus) (specs : List AssignmentExemptionSpec) (t : Trace)
      → kube_writes (create_exemptions env assignment_id existing specs t).1 ≡ kube_writes t
  unfolding create_exemptions
  kube-create_exemptions existing [] t = ground arith
  kube-create_exemptions existing (spec ∷ specs) t = ground (
    arith,
    kube-one existing spec t,
    kube-create_exemptions existing specs (one existing spec t).1,
  )

  abbrev gone : AssignmentExemptionStatus → Try (Unit {0})
  gone e =
      wrap "deleting exemption %q: %w" (e.display_name ∷ [])
        (Service.delete env e.scope e.exemption_id)

  kube-delete_removed :
      (desired : List String) (es : List AssignmentExemptionStatus) (t : Trace)
      → kube_writes (delete_removed env desired es t).1 ≡ kube_writes t
  unfolding delete_removed Service.delete
  kube-delete_removed desired [] t = ground arith
  kube-delete_removed desired (e ∷ es) t =
      ground (arith, kube-delete_removed desired es t, kube-delete_removed desired es (gone e t).1)

  kube-reconcile_exemptions :
      (specs : List AssignmentExemptionSpec) (before : List AssignmentExemptionStatus) (t : Trace)
      → kube_writes (reconcile_exemptions env assignment_id specs before t).1 ≡ kube_writes t
  unfolding reconcile_exemptions
  kube-reconcile_exemptions specs before t = ground (
    arith,
    kube-create_exemptions (known before) specs t,
    kube-delete_removed (names specs) before
        (create_exemptions env assignment_id (known before) specs t).1,
  )

module _ (env : Env) (assignment : AzurePolicyAssignment) where
  kube-with_roles :
      (created : Created) (r : Result (List AssignmentExemptionStatus)) (t : Trace)
      → kube_writes (with_roles env assignment created r t).1 ≡ kube_writes t
  unfolding Go.◌>>=◌ Go.pure
  kube-with_roles created (err e) t = ground arith
  kube-with_roles created (ok exemptions) t = ground (
    arith,
    kube-reconcile_role_assignments env created.assignment_id created.mi_principal_id
        assignment.spec.identity t,
  )

  kube-with_exemptions :
      (created : Created) (t : Trace)
      → kube_writes (with_exemptions env assignment created t).1 ≡ kube_writes t
  kube-with_exemptions created t =
      keeps kube_writes
        (reconcile_exemptions env created.assignment_id assignment.spec.exemptions
          assignment.status.exemptions)
        (with_roles env assignment created) t
        (kube-reconcile_exemptions env created.assignment_id assignment.spec.exemptions
          assignment.status.exemptions t)
        (kube-with_roles created)

  kube-identified :
      (r : AssignmentResource) (id : Option String) (t : Trace)
      → kube_writes (identified env assignment r id t).1 ≡ kube_writes t
  unfolding Go.panic
  kube-identified r none t = ground arith
  kube-identified r (some id) t = kube-with_exemptions _ t

  kube-after_create :
      (answer : Reply AssignmentResource) (t : Trace)
      → kube_writes (after_create env assignment answer t).1 ≡ kube_writes t
  unfolding Go.pure
  kube-after_create (failed text) t = ground arith
  kube-after_create (reply r) t = kube-identified r r.id t

  abbrev asked : String → Go.Go (Reply AssignmentResource)
  asked policy_definition_id =
      Go.ask
        (arm_call (
          put_assignment assignment.spec.scope (assignment_name assignment)
            (arm_location assignment) (arm_identity assignment)
            (assignment_params env assignment.spec policy_definition_id)))
        env.assignment_reply

  kube-asked :
      (policy_definition_id : String) (t : Trace)
      → kube_writes (asked policy_definition_id t).1 ≡ kube_writes t
  unfolding Go.ask
  kube-asked policy_definition_id t = ground arith

  pub kube-create_or_update :
      (policy_definition_id : String) (t : Trace)
      → kube_writes (create_or_update env assignment policy_definition_id t).1 ≡ kube_writes t
  unfolding create_or_update
  kube-create_or_update policy_definition_id t =
      keeps kube_writes (asked policy_definition_id) (after_create env assignment) t
        (kube-asked policy_definition_id t) kube-after_create
