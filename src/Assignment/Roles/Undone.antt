-- ===== src/Assignment/Roles/Undone.antt =====
-- Deleting an assignment's role assignments undoes what creating them did.
use policy_operator.Base.{refl, String, ◌≡◌, ◌≢◌, List, [], ◌∷◌, arith, eq_iff}
use policy_operator.Base.Lists.{All}
use policy_operator.Failure.{ok}
use policy_operator.Api.Assignment.{IdentityPermission}
use policy_operator.World.{
  Env, Trace, ArmCall, arm_call, put_role_assignment, delete_role_assignment,
}
use policy_operator.World.Go.{returned}
use policy_operator.World.Views.{arm_writes}
use policy_operator.Assignment.Roles.{
  create_role_assignments, delete_role_assignments, role_assignment_name,
}

-- calls in their order, on top of earlier ones
abbrev pub onto : List ArmCall → List ArmCall → List ArmCall
onto [] earlier = earlier
onto (c ∷ cs) earlier = onto cs (c ∷ earlier)

-- The permission gives its role by ID.
abbrev pub ById : IdentityPermission → Type 0
ById perm = perm.role_definition_id ≢ ""

module _ (env : Env) (assignment_id : String) where
  abbrev put_of : String → IdentityPermission → ArmCall
  put_of principal_id perm =
      put_role_assignment perm.scope
        (role_assignment_name env assignment_id perm.scope perm.role_definition_id) principal_id
        perm.role_definition_id

  abbrev delete_of : IdentityPermission → ArmCall
  delete_of perm =
      delete_role_assignment perm.scope
        (role_assignment_name env assignment_id perm.scope perm.role_definition_id)

  abbrev pub puts : String → List IdentityPermission → List ArmCall
  puts principal_id [] = []
  puts principal_id (perm ∷ perms) = put_of principal_id perm ∷ puts principal_id perms

  abbrev pub deletes : List IdentityPermission → List ArmCall
  deletes [] = []
  deletes (perm ∷ perms) = delete_of perm ∷ deletes perms

  created :
      (principal_id : String) (perms : List IdentityPermission) (t : Trace)
      → All ById perms
      → (create_role_assignments env assignment_id principal_id perms t).0 ≡ returned (ok tt)
      → arm_writes (create_role_assignments env assignment_id principal_id perms t).1
        ≡ onto (puts principal_id perms) (arm_writes t)
  unfolding create_role_assignments
  created principal_id [] t by_id h = ground arith
  created principal_id (perm ∷ perms) t (given, by_id) h = ground (
    arith,
    eq_iff perm.role_definition_id "",
    created principal_id perms (arm_call (put_of principal_id perm) ∷ t) by_id,
  )

  pub deleted :
      (perms : List IdentityPermission) (t : Trace)
      → All ById perms
      → (delete_role_assignments env assignment_id perms t).0 ≡ returned (ok tt)
      → arm_writes (delete_role_assignments env assignment_id perms t).1
        ≡ onto (deletes perms) (arm_writes t)
  unfolding delete_role_assignments
  deleted [] t by_id h = ground arith
  deleted (perm ∷ perms) t (given, by_id) h = ground (
    arith,
    eq_iff perm.role_definition_id "",
    deleted perms (arm_call (delete_of perm) ∷ t) by_id,
  )

  -- The deletion of the role assignment that a call creates.
  abbrev pub undo : ArmCall → ArmCall
  undo (put_role_assignment scope name principal_id role) = delete_role_assignment scope name
  undo call = call

  abbrev pub undone : List ArmCall → List ArmCall
  undone [] = []
  undone (c ∷ cs) = undo c ∷ undone cs

  undone-puts :
      (principal_id : String) (perms : List IdentityPermission)
      → undone (puts principal_id perms) ≡ deletes perms
  undone-puts principal_id [] = refl
  undone-puts principal_id (perm ∷ perms) = rw (undone-puts principal_id perms)

  -- Where all permissions give their roles by ID and both loops succeed, deleting the role
  -- assignments deletes those that creating them wrote, in the same order.
  pub roles_undone :
      (principal_id : String) (perms : List IdentityPermission) (t s : Trace)
      → All ById perms
      → (create_role_assignments env assignment_id principal_id perms t).0 ≡ returned (ok tt)
      → (delete_role_assignments env assignment_id perms s).0 ≡ returned (ok tt)
      → (calls : List ArmCall) × (arm_writes
            (create_role_assignments env assignment_id principal_id perms t).1
          ≡ onto calls (arm_writes t))
        × (arm_writes (delete_role_assignments env assignment_id perms s).1
            ≡ onto (undone calls) (arm_writes s))
  roles_undone principal_id perms t s by_id h k =
      let calls = puts principal_id perms in
      (
        calls,
        created principal_id perms t by_id h,
        rw (undone-puts principal_id perms) (deleted perms s by_id k),
      )
