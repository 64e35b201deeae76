-- ===== src/Assignment/Service/Removal.antt =====
-- What deleting an assignment removes, in which order, and what stops it.
use policy_operator.Base.{String, ◌≡◌, List, ◌∷◌, arith, Option, some}
use policy_operator.Base.Lists.{All}
use policy_operator.Base.Text.{last_segment}
use policy_operator.Failure.{Error, ok, err}
use policy_operator.Api.Assignment.{AssignmentExemptionStatus, AssignmentIdentity}
use policy_operator.World.{Env, Trace, delete_assignment}
use policy_operator.World.Go.{returned}
use policy_operator.World.Views.{arm_writes}
use policy_operator.Assignment.Roles.Undone.{onto, ById, deletes, deleted}
use policy_operator.Assignment.Exemptions.{delete_exemptions}
use policy_operator.Assignment.Exemptions.Recorded.{deletions, exemptions_deleted}
use policy_operator.Assignment.Service.{delete}

module _ (env : Env) where
  -- If deleting the exemptions of an assignment fails, deleting the assignment makes the calls of
  -- that loop, returns its error and does no more.
  failed_exemptions_stop :
      (scope id : String) (es : List AssignmentExemptionStatus)
      (identity : Option AssignmentIdentity) (t : Trace) (e : Error)
      → (delete_exemptions env es t).0 ≡ returned (err e)
      → delete env scope id es identity t ≡ delete_exemptions env es t
  unfolding delete
  failed_exemptions_stop scope id es identity t e h = ground arith

  -- A successful deletion of an assignment with an identity whose permissions give their roles by
  -- ID writes the deletions of its exemptions, then of its role assignments, then of the
  -- assignment, in this order.
  pub assignment_deleted_last :
      (scope id : String) (es : List AssignmentExemptionStatus) (identity : AssignmentIdentity)
      (t : Trace)
      → All ById identity.permissions
      → (delete env scope id es (some identity) t).0 ≡ returned (ok tt)
      → arm_writes (delete env scope id es (some identity) t).1
        ≡ delete_assignment scope (last_segment id)
          ∷ onto (deletes env id identity.permissions) (onto (deletions es) (arm_writes t))
  unfolding delete
  assignment_deleted_last scope id es identity t by_id h = ground (
    arith,
    exemptions_deleted env es t,
    deleted env id identity.permissions (delete_exemptions env es t).1 by_id,
  )
