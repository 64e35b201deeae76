-- ===== src/Assignment/Roles/Quiet.antt =====
-- Creating and deleting role assignments touches nothing in Kubernetes.
use policy_operator.Base.{String, Option, none, some, ◌≡◌, List, [], ◌∷◌, arith}
use policy_operator.Api.Assignment.{AssignmentIdentity, IdentityPermission}
use policy_operator.World.{Env, Trace, put_role_assignment, delete_role_assignment}
use policy_operator.World.Go
use policy_operator.World.Go.{arm_command}
use policy_operator.World.Try.{Try, pure, fail, ◌>>◌}
use policy_operator.World.Try.Keeps.{try_keeps}
use policy_operator.World.Views.{kube_writes}
use policy_operator.Assignment.Roles.{
  create_role_assignments, reconcile_role_assignments, role_to_create, delete_role_assignments,
  role_assignment_name, role_to_delete, resolve_role_definition_id, command,
}

module _ (env : Env) (assignment_id : String) where
  abbrev deletion : IdentityPermission → String → Try (Unit {0})
  deletion perm role =
      Go.◌>>=◌
        (arm_command env (
          delete_role_assignment perm.scope
            (role_assignment_name env assignment_id perm.scope role)))
        (λ failure.
          Go.pure
            (command env "deleting role assignment at scope %q: %w" (perm.scope ∷ []) failure))

  kube-deletion :
      (perm : IdentityPermission) (role : String) (t : Trace)
      → kube_writes (deletion perm role t).1 ≡ kube_writes t
  unfolding Go.◌>>=◌ Go.pure arm_command
  kube-deletion perm role t = ground arith

  kube-role :
      (perm : IdentityPermission) (t : Trace)
      → kube_writes (role_to_delete env perm t).1 ≡ kube_writes t
  unfolding resolve_role_definition_id pure
  kube-role perm t = ground arith

  pub kube-delete_role_assignments :
      (perms : List IdentityPermission) (t : Trace)
      → kube_writes (delete_role_assignments env assignment_id perms t).1 ≡ kube_writes t
  unfolding delete_role_assignments
  kube-delete_role_assignments [] t = ground arith
  kube-delete_role_assignments (perm ∷ perms) t =
      try_keeps kube_writes (role_to_delete env perm)
        (λ role. deletion perm role >> delete_role_assignments env assignment_id perms) t
        (kube-role perm t)
        (λ role s.
          try_keeps kube_writes (deletion perm role)
            (λ u. delete_role_assignments env assignment_id perms) s (kube-deletion perm role s)
            (λ u s'. kube-delete_role_assignments perms s'))

module _ (env : Env) (assignment_id principal_id : String) where
  abbrev creation : IdentityPermission → String → Try (Unit {0})
  creation perm role =
      Go.◌>>=◌
        (arm_command env (
          put_role_assignment perm.scope (role_assignment_name env assignment_id perm.scope role)
            principal_id role))
        (λ failure.
          Go.pure
            (command env "creating role assignment at scope %q: %w" (perm.scope ∷ []) failure))

  kube-creation :
      (perm : IdentityPermission) (role : String) (t : Trace)
      → kube_writes (creation perm role t).1 ≡ kube_writes t
  unfolding Go.◌>>=◌ Go.pure arm_command
  kube-creation perm role t = ground arith

  kube-role_to_create :
      (perm : IdentityPermission) (t : Trace)
      → kube_writes (role_to_create env perm t).1 ≡ kube_writes t
  unfolding resolve_role_definition_id pure fail
  kube-role_to_create perm t = ground arith

  kube-create_role_assignments :
      (perms : List IdentityPermission) (t : Trace)
      → kube_writes (create_role_assignments env assignment_id principal_id perms t).1
        ≡ kube_writes t
  unfolding create_role_assignments
  kube-create_role_assignments [] t = ground arith
  kube-create_role_assignments (perm ∷ perms) t =
      try_keeps kube_writes (role_to_create env perm)
        (λ role. creation perm role >> create_role_assignments env assignment_id principal_id perms)
        t (kube-role_to_create perm t)
        (λ role s.
          try_keeps kube_writes (creation perm role)
            (λ u. create_role_assignments env assignment_id principal_id perms) s
            (kube-creation perm role s) (λ u s'. kube-create_role_assignments perms s'))

  pub kube-reconcile_role_assignments :
      (identity : Option AssignmentIdentity) (t : Trace)
      → kube_writes (reconcile_role_assignments env identity assignment_id principal_id t).1
        ≡ kube_writes t
  unfolding reconcile_role_assignments
  kube-reconcile_role_assignments none t = ground arith
  kube-reconcile_role_assignments (some identity) t =
      ground (arith, kube-create_role_assignments identity.permissions t)
