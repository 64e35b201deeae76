-- ===== src/Assignment/Roles.antt =====
-- internal/service/policyassignment/assingment.go: the role assignments of the managed identity.
pub mod Quiet
pub mod Undone
use policy_operator.Base.{String, Option, none, some, List, [], ◌∷◌, ◌==◌, ◌<>◌, if◌then◌else◌}
use policy_operator.Failure.{Error, azure, errorf, wrapf, Result, ok, err}
use policy_operator.Api.Assignment.{AssignmentIdentity, IdentityPermission}
use policy_operator.World.{
  Env, arm_call, list_role_definitions, put_role_assignment, delete_role_assignment, Reply, reply,
  failed,
}
use policy_operator.World.Go
use policy_operator.World.Go.{ask, arm_command}
use policy_operator.World.Try.{Try, pure, fail, nil_or, ◌>>=◌, ◌>>◌}

-- The first ID on a page, and on the pages in turn until one fails.
unfoldable pub first_id : List (Option String) → Option String
first_id [] = none
first_id (none ∷ ids) = first_id ids
first_id (some id ∷ ids) = some id

unfoldable pub find_role : Error → List (Reply (List (Option String))) → Result String
unfolding first_id
find_role missing [] = err missing
find_role missing (failed text ∷ pages) = err (azure text)
find_role missing (reply ids ∷ pages) = elim (first_id ids) [
  | some id ↦ ok id
  | none ↦ find_role missing pages
]

-- fmt.Errorf around the error of a call
abbrev pub wrapped {ℓ} : {A : Type ℓ} → String → List String → Result A → Result A
wrapped format args (ok a) = ok a
wrapped format args (err e) = err (wrapf format args e)

abbrev pub wrap {ℓ} : {A : Type ℓ} → String → List String → Try A → Try A
wrap format args m t =
    let (outcome, t') = m t in
    elim outcome [
      | Go.Outcome.returned r ↦ (Go.Outcome.returned (wrapped format args r), t')
      | Go.Outcome.panicked ↦ (Go.Outcome.panicked, t')
    ]

module _ (env : Env) where
  -- The pager's calls are one event here; its pages are looked at in turn.
  unfoldable pub resolve_role_definition_id : (scope role_name : String) → Try String
  unfolding Go.◌>>=◌ Go.pure ask find_role
  resolve_role_definition_id scope role_name =
      Go.◌>>=◌
        (ask (arm_call (list_role_definitions scope ("roleName eq '" <> (role_name <> "'"))))
          env.role_definition_pages)
        (λ pages.
          Go.pure
            (find_role (errorf "role %q not found at scope %q" (role_name ∷ scope ∷ [])) pages))

  -- The name is derived from the assignment's ID, the scope and the role definition.
  unfoldable pub role_assignment_name : (assignment_id scope role_definition_id : String) → String
  role_assignment_name assignment_id scope role_definition_id =
      env.uuid_sha1 (assignment_id <> (scope <> role_definition_id))

  abbrev role_to_create : IdentityPermission → Try String
  role_to_create perm =
      if perm.role_definition_id == ""
      then (if perm.role == ""
          then fail (
              errorf
                "identity permission at scope %q: either role or roleDefinitionId must be specified"
                (perm.scope ∷ []))
          else wrap "resolving role %q at scope %q: %w" (perm.role ∷ perm.scope ∷ [])
              (resolve_role_definition_id perm.scope perm.role))
      else pure perm.role_definition_id

  abbrev command : String → List String → Option String → Result (Unit {0})
  command format args failure = wrapped format args (nil_or azure failure)

  unfoldable pub create_role_assignments :
      (assignment_id principal_id : String) → List IdentityPermission → Try (Unit {0})
  unfolding ◌>>=◌ pure fail arm_command resolve_role_definition_id role_assignment_name
  create_role_assignments assignment_id principal_id [] = pure tt
  create_role_assignments assignment_id principal_id (perm ∷ perms) = do
    role ← role_to_create perm
    Go.◌>>=◌
        (arm_command env (
          put_role_assignment perm.scope (role_assignment_name assignment_id perm.scope role)
            principal_id role))
        (λ failure.
          Go.pure (command "creating role assignment at scope %q: %w" (perm.scope ∷ []) failure))
    create_role_assignments assignment_id principal_id perms

  -- Nothing is done without permissions, or without a principal.
  unfoldable pub reconcile_role_assignments :
      Option AssignmentIdentity → (assignment_id principal_id : String) → Try (Unit {0})
  unfolding create_role_assignments
  reconcile_role_assignments none assignment_id principal_id = pure tt
  reconcile_role_assignments (some identity) assignment_id principal_id =
      if principal_id == ""
      then pure tt
      else create_role_assignments assignment_id principal_id identity.permissions

  abbrev role_to_delete : IdentityPermission → Try String
  role_to_delete perm =
      if perm.role_definition_id == ""
      then wrap "resolving role %q at scope %q for deletion: %w" (perm.role ∷ perm.scope ∷ [])
          (resolve_role_definition_id perm.scope perm.role)
      else pure perm.role_definition_id

  unfoldable pub delete_role_assignments :
      (assignment_id : String) → List IdentityPermission → Try (Unit {0})
  unfolding ◌>>=◌ pure fail arm_command resolve_role_definition_id role_assignment_name
  delete_role_assignments assignment_id [] = pure tt
  delete_role_assignments assignment_id (perm ∷ perms) = do
    role ← role_to_delete perm
    Go.◌>>=◌
        (arm_command env
          (delete_role_assignment perm.scope (role_assignment_name assignment_id perm.scope role)))
        (λ failure.
          Go.pure (command "deleting role assignment at scope %q: %w" (perm.scope ∷ []) failure))
    delete_role_assignments assignment_id perms
