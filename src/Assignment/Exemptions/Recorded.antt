-- ===== src/Assignment/Exemptions/Recorded.antt =====
-- Which exemptions are recorded after reconciling the inline ones, and which are deleted.
use policy_operator.Base.{String, ◌≡◌, List, [], ◌∷◌, arith, refl, if◌then◌else◌}
use policy_operator.Base.Lists.{Dict, contains}
use policy_operator.Base.Text.{last_segment}
use policy_operator.Failure.{ok}
use policy_operator.Api.Assignment.{AssignmentExemptionSpec, AssignmentExemptionStatus}
use policy_operator.World.{Env, Trace, ArmCall, arm_call, delete_exemption}
use policy_operator.World.Go.{returned}
use policy_operator.World.Try.{Try}
use policy_operator.World.Views.{arm_writes, kube_writes}
use policy_operator.Exemption.Service
use policy_operator.Assignment.Roles.{wrap}
use policy_operator.Assignment.Roles.Undone.{onto}
use policy_operator.Assignment.Exemptions.{
  create_exemptions, delete_removed, delete_exemptions, reconcile_exemptions, names, known,
  synthetic,
}

abbrev pub recorded_names : List AssignmentExemptionStatus → List String
recorded_names [] = []
recorded_names (e ∷ es) = e.display_name ∷ recorded_names es

abbrev delete_of : AssignmentExemptionStatus → ArmCall
delete_of e = delete_exemption e.scope (last_segment e.exemption_id)

-- One deletion for each exemption, under the name that its ID ends in.
abbrev pub deletions : List AssignmentExemptionStatus → List ArmCall
deletions [] = []
deletions (e ∷ es) = delete_of e ∷ deletions es

-- The recorded exemptions whose names the spec no longer has.
abbrev pub removed : List String → List AssignmentExemptionStatus → List AssignmentExemptionStatus
removed desired [] = []
removed desired (e ∷ es) =
    let rest = removed desired es in if contains desired e.display_name then rest else e ∷ rest

module _ (env : Env) where
  -- Deleting the inline exemptions with success writes the deletion of each of them, in order.
  pub exemptions_deleted :
      (es : List AssignmentExemptionStatus) (t : Trace)
      → (delete_exemptions env es t).0 ≡ returned (ok tt)
      → arm_writes (delete_exemptions env es t).1 ≡ onto (deletions es) (arm_writes t)
  unfolding delete_exemptions Service.delete
  exemptions_deleted [] t h = ground arith
  exemptions_deleted (e ∷ es) t h =
      ground (arith, exemptions_deleted es (arm_call (delete_of e) ∷ t))

  removed_deleted :
      (desired : List String) (es : List AssignmentExemptionStatus) (t : Trace)
      → (delete_removed env desired es t).0 ≡ returned (ok tt)
      → arm_writes (delete_removed env desired es t).1
        ≡ onto (deletions (removed desired es)) (arm_writes t)
  unfolding delete_removed Service.delete
  removed_deleted desired [] t h = ground arith
  removed_deleted desired (e ∷ es) t h =
      ground (
        arith,
        removed_deleted desired es t,
        removed_deleted desired es (arm_call (delete_of e) ∷ t),
      )

  pub kube-delete_exemptions :
      (es : List AssignmentExemptionStatus) (t : Trace)
      → kube_writes (delete_exemptions env es t).1 ≡ kube_writes t
  unfolding delete_exemptions Service.delete
  kube-delete_exemptions [] t = ground arith
  kube-delete_exemptions (e ∷ es) t =
      ground (arith, kube-delete_exemptions es (arm_call (delete_of e) ∷ t))

  -- the first call of the loop
  abbrev first : String → Dict AssignmentExemptionStatus → AssignmentExemptionSpec → Try String
  first id existing spec =
      wrap "reconciling exemption %q: %w" (spec.display_name ∷ [])
        (Service.create_or_update env (synthetic id existing spec))

  created_names :
      (id : String) (existing : Dict AssignmentExemptionStatus)
      (specs : List AssignmentExemptionSpec) (t : Trace) (out : List AssignmentExemptionStatus)
      → (create_exemptions env id existing specs t).0 ≡ returned (ok out)
      → recorded_names out ≡ names specs
  unfolding create_exemptions
  created_names id existing [] t [] h = refl
  created_names id existing [] t (o ∷ os) h = ground arith
  created_names id existing (spec ∷ specs) t [] h = ground arith
  created_names id existing (spec ∷ specs) t (o ∷ os) h =
      ground (arith, created_names id existing specs (first id existing spec t).1 os)

  -- Reconciling the inline exemptions with success returns one status for each exemption of the
  -- spec, under its name and in its order.
  pub exemptions_recorded :
      (id : String) (specs : List AssignmentExemptionSpec) (before : List AssignmentExemptionStatus)
      (t : Trace) (out : List AssignmentExemptionStatus)
      → (reconcile_exemptions env id specs before t).0 ≡ returned (ok out)
      → recorded_names out ≡ names specs
  unfolding reconcile_exemptions
  exemptions_recorded id specs before t out h =
      ground (arith, created_names id (known before) specs t out)
