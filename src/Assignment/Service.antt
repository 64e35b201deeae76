-- ===== src/Assignment/Service.antt =====
-- internal/service/policyassignment/assingment.go
pub mod Removal
pub mod Quiet
use policy_operator.Base.{String, Option, none, some, List, [], ◌∷◌, ◌==◌, if◌then◌else◌}
use policy_operator.Base.Text.{last_segment, lower_contains}
use policy_operator.Failure.{Error, azure, errorf, wrapf, Result, ok, err}
use policy_operator.Api.Assignment.{
  AzurePolicyAssignment, AzurePolicyAssignmentSpec, AssignmentExemptionStatus, AssignmentIdentity,
}
use policy_operator.Arm.{AssignmentResource, ArmIdentity}
use policy_operator.World.{Env, Reply, reply, failed}
use policy_operator.World.Assignments
use policy_operator.World.Go.{Go, ask, pure, panic, arm_command, ◌>>=◌}
use policy_operator.World.Try
use policy_operator.World.Try.{Try, nil_or}
use policy_operator.Common.Naming.{target_name, or_empty, is_not_found}
use policy_operator.Assignment.Object.{Created, Live}
use policy_operator.Assignment.Payload.{assignment_params, arm_identity, arm_location}
use policy_operator.Assignment.Drift.{drift_fields}
use policy_operator.Assignment.Roles.{reconcile_role_assignments, delete_role_assignments}
use policy_operator.Assignment.Exemptions.{reconcile_exemptions, delete_exemptions}

-- The name recorded in the ID, or for a new assignment its target name.
unfoldable pub assignment_name : AzurePolicyAssignment → String
unfolding last_segment target_name
assignment_name assignment =
    if assignment.status.assignment_id == ""
    then target_name assignment.meta
    else last_segment assignment.status.assignment_id

abbrev pub principal_of : Option ArmIdentity → String
principal_of none = ""
principal_of (some identity) = or_empty identity.principal_id

abbrev nothing : Created
nothing = record {
  assignment_id = "";
  assigned_location = "";
  mi_principal_id = "";
  exemptions = none;
}

abbrev judged : String → AzurePolicyAssignmentSpec → String → Reply AssignmentResource → Result Live
judged import_id spec policy_definition_id (failed text) =
    err (wrapf "fetching policy assignment %q: %w" (import_id ∷ []) (azure text))
judged import_id spec policy_definition_id (reply live) = ok (record {
  location = or_empty live.location;
  principal_id = principal_of live.identity;
  drift = drift_fields live.properties spec policy_definition_id;
})

abbrev existing_id : Reply AssignmentResource → Result String
existing_id (failed text) = if is_not_found text then ok "" else err (azure text)
existing_id (reply r) = ok (or_empty r.id)

abbrev error_of : Result (Unit {0}) → Option Error
error_of (ok _) = none
error_of (err e) = some e

module _ (env : Env) where
  -- The role assignments, after the exemptions.
  abbrev pub with_roles :
      AzurePolicyAssignment
      → Created
      → Result (List AssignmentExemptionStatus)
      → Go (Created × Option Error)
  with_roles assignment created (err e) = pure (created, some e)
  with_roles assignment created (ok exemptions) = do
    roles ←
        reconcile_role_assignments env assignment.spec.identity created.assignment_id
          created.mi_principal_id
    pure (record created { exemptions = some exemptions }, error_of roles)

  abbrev pub with_exemptions : AzurePolicyAssignment → Created → Go (Created × Option Error)
  with_exemptions assignment created = do
    exemptions ←
        reconcile_exemptions env created.assignment_id assignment.spec.exemptions
          assignment.status.exemptions
    with_roles assignment created exemptions

  -- `*resp.Assignment.ID` panics on nil.
  abbrev pub identified :
      AzurePolicyAssignment → AssignmentResource → Option String → Go (Created × Option Error)
  identified assignment r none = panic
  identified assignment r (some id) = with_exemptions assignment (record {
    assignment_id = id;
    assigned_location = or_empty r.location;
    mi_principal_id = principal_of r.identity;
    exemptions = none;
  })

  -- What follows the answer of Create.
  abbrev pub after_create :
      AzurePolicyAssignment → Reply AssignmentResource → Go (Created × Option Error)
  after_create assignment (failed text) = pure (nothing, some (azure text))
  after_create assignment (reply r) = identified assignment r r.id

  unfoldable pub create_or_update : AzurePolicyAssignment → String → Go (Created × Option Error)
  unfolding ◌>>=◌ ask pure panic assignment_params arm_identity arm_location assignment_name
  create_or_update assignment policy_definition_id = do
    answer ←
        Assignments.create env assignment.spec.scope (assignment_name assignment)
          (arm_location assignment) (arm_identity assignment)
          (assignment_params env assignment.spec policy_definition_id)
    after_create assignment answer

  unfoldable pub import : String → AzurePolicyAssignment → String → Try Live
  unfolding ◌>>=◌ ask pure lower_contains drift_fields
  import import_id assignment policy_definition_id =
      if lower_contains import_id "/policyassignments/"
      then (do
        answer ← Assignments.get_by_id env import_id
        pure (judged import_id assignment.spec policy_definition_id answer))
      else pure
          (err (errorf "import ID does not reference a Policy Assignment: %q" (import_id ∷ [])))

  unfoldable pub get : AzurePolicyAssignment → Try String
  unfolding ◌>>=◌ ask pure is_not_found target_name
  get assignment = do
    answer ← Assignments.get env assignment.spec.scope (target_name assignment.meta)
    pure (existing_id answer)

  -- Without permissions no role assignment is touched.
  abbrev delete_roles : String → Option AssignmentIdentity → Try (Unit {0})
  delete_roles assignment_id none = Try.pure tt
  delete_roles assignment_id (some identity) =
      delete_role_assignments env assignment_id identity.permissions

  abbrev delete_itself : (scope assignment_id : String) → Try (Unit {0})
  delete_itself scope assignment_id = do
    failure ← Assignments.delete env scope (last_segment assignment_id)
    pure (nil_or azure failure)

  -- The exemptions, the role assignments, and then the assignment.
  unfoldable pub delete :
      (scope assignment_id : String)
      → List AssignmentExemptionStatus
      → Option AssignmentIdentity
      → Try (Unit {0})
  unfolding ◌>>=◌ pure arm_command last_segment Try.◌>>=◌
  delete scope assignment_id exemptions identity =
      Try.◌>>◌ (delete_exemptions env exemptions)
        (Try.◌>>◌ (delete_roles assignment_id identity) (delete_itself scope assignment_id))
