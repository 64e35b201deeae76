-- ===== src/Initiative/Once.antt =====
-- A reconcile of an AzurePolicyInitiative makes at most one write to Kubernetes.
use policy_operator.Base.{suc, ◌≤◌, Bool, true, false, String, List, [], ◌∷◌, ◌≡◌, ap, arith}
use policy_operator.Failure.{Result, ok, err}
use policy_operator.Api.Meta.{annotation, annotation_import_id, annotation_import_mode}
use policy_operator.Api.Initiative.{AzurePolicyInitiative, PolicyDefinitionReference}
use policy_operator.World.{Env, Trace, Event, kube_call, get, Kind}
use policy_operator.World.Try
use policy_operator.World.Go.{
  ◌>>=◌, pure, kube_update_status, record_event, record_if_set, Outcome, returned,
}
use policy_operator.World.Go.Once.{OneWrite, written, once_later, once_by}
use policy_operator.World.Go.Quiet.{IsQuiet, assoc}
use policy_operator.Common.Reconcile.{or_observe_only, Step, done, next}
use policy_operator.Initiative.Object.{
  InitiativeService, set_condition, set_imported_condition, set_drift_condition,
}
use policy_operator.Initiative.Wiring.{IsLawful}
use policy_operator.Initiative.Deletion.{handle_deletion}
use policy_operator.Initiative.Resolve.{
  Resolved, resolved, not_ready, not_resolved, resolve_refs, resolve_policy_definition_ids,
}
use policy_operator.Initiative.Apply.{
  reconcile_initiative, existing, write_unless, applied, applied_object,
}
use policy_operator.Initiative.Import.{handle_import, import_done}
use policy_operator.Initiative.Controller.{reconcile_fetched, after_import, resolved_all}

abbrev is_resolved : Outcome Resolved → Bool
is_resolved (returned (resolved ids)) = true
is_resolved _ = false

module _ (env : Env) (initiative : AzurePolicyInitiative) (namespace : String) where
  abbrev lookup : PolicyDefinitionReference → Event
  lookup ref =
      kube_call
        (get Kind.definition (record { namespace = namespace; name = ref.policy_definition_ref }))

  refs-IsQuiet :
      (refs : List PolicyDefinitionReference) (t : Trace)
      → is_resolved (resolve_refs env initiative namespace refs t).0 ≡ true
      → IsQuiet (resolve_refs env initiative namespace refs) t
  unfolding resolve_refs
  refs-IsQuiet [] t h = ground arith
  refs-IsQuiet (ref ∷ refs) t h =
      ground (arith, refs-IsQuiet refs t, refs-IsQuiet refs (lookup ref ∷ t))

  refs-OneWrite :
      (refs : List PolicyDefinitionReference) (t : Trace)
      → OneWrite (resolve_refs env initiative namespace refs) t
  unfolding resolve_refs
  refs-OneWrite [] t = ground arith
  refs-OneWrite (ref ∷ refs) t =
      ground (arith, refs-OneWrite refs t, refs-OneWrite refs (lookup ref ∷ t))

  resolve-OneWrite :
      (t : Trace) → OneWrite (resolve_policy_definition_ids env initiative namespace) t
  unfolding resolve_policy_definition_ids
  resolve-OneWrite t = refs-OneWrite initiative.spec.policy_definitions t

  resolved_quietly :
      (t : Trace) (ids : List String)
      → (resolve_policy_definition_ids env initiative namespace t).0 ≡ returned (resolved ids)
      → IsQuiet (resolve_policy_definition_ids env initiative namespace) t
  unfolding resolve_policy_definition_ids
  resolved_quietly t ids e = refs-IsQuiet initiative.spec.policy_definitions t (ap is_resolved e)

module _ (env : Env) (svc : InitiativeService) (recorder : Bool) (lawful : IsLawful svc) where
  deletion-OneWrite :
      (initiative : AzurePolicyInitiative) (t : Trace)
      → OneWrite (handle_deletion env svc recorder initiative) t
  unfolding handle_deletion
  deletion-OneWrite initiative t = ground (arith, lawful.kube-delete initiative t)

  applied-OneWrite :
      (initiative : AzurePolicyInitiative) (was_created : Bool) (r : Result String) (t : Trace)
      → OneWrite (applied env svc recorder initiative was_created r) t
  unfolding ◌>>=◌ kube_update_status record_if_set set_condition applied_object pure
  applied-OneWrite initiative was_created (ok id) t = ground arith
  applied-OneWrite initiative was_created (err e) t = ground arith

  create-OneWrite :
      (initiative : AzurePolicyInitiative) (ids : List String) (was_created : Bool) (t : Trace)
      → OneWrite
          (svc.create_or_update initiative ids >>= applied env svc recorder initiative was_created)
          t
  create-OneWrite initiative ids was_created t =
      once_later (svc.create_or_update initiative ids)
        (applied env svc recorder initiative was_created) t
        (lawful.kube-create_or_update initiative ids t)
        (λ r e. applied-OneWrite initiative was_created r (svc.create_or_update initiative ids t).1)

  after_get-OneWrite :
      (initiative : AzurePolicyInitiative) (ids : List String) (r : Result String) (t : Trace)
      → OneWrite
          (existing env svc recorder initiative r >>= write_unless env svc recorder initiative ids)
          t
  unfolding ◌>>=◌ kube_update_status record_if_set set_condition Try.pure
  after_get-OneWrite initiative ids r t = ground (arith, create-OneWrite initiative ids true t)

  reconcile_initiative-OneWrite :
      (initiative : AzurePolicyInitiative) (ids : List String) (t : Trace)
      → OneWrite (reconcile_initiative env svc recorder initiative ids) t
  unfolding reconcile_initiative
  reconcile_initiative-OneWrite initiative ids t = ground (
    arith,
    create-OneWrite initiative ids false t,
    assoc (svc.get initiative) (existing env svc recorder initiative)
        (write_unless env svc recorder initiative ids) t,
    once_later (svc.get initiative)
        (λ r.
          existing env svc recorder initiative r >>= write_unless env svc recorder initiative ids)
        t (lawful.kube-get initiative t)
        (λ r e. after_get-OneWrite initiative ids r (svc.get initiative t).1),
  )

  import_done-OneWrite :
      (initiative : AzurePolicyInitiative) (id mode : String) (r : Result (List String)) (t : Trace)
      → OneWrite (import_done env svc recorder initiative id mode r) t
  unfolding ◌>>=◌ kube_update_status record_event record_if_set set_condition set_imported_condition
      set_drift_condition pure
  import_done-OneWrite initiative id mode (ok drift) t = ground arith
  import_done-OneWrite initiative id mode (err e) t = ground arith

  handle_import-OneWrite :
      (initiative : AzurePolicyInitiative) (ids : List String) (t : Trace)
      → OneWrite (handle_import env svc recorder initiative ids) t
  unfolding handle_import
  handle_import-OneWrite initiative ids t =
      let id = annotation initiative.meta annotation_import_id in
      let mode = or_observe_only (annotation initiative.meta annotation_import_mode) in
      ground (
        arith,
        once_later (svc.import id initiative ids) (import_done env svc recorder initiative id mode)
            t (lawful.kube-import id initiative ids t)
            (λ r e. import_done-OneWrite initiative id mode r (svc.import id initiative ids t).1),
      )

  adopted_quietly :
      (initiative d : AzurePolicyInitiative) (ids : List String) (t : Trace)
      → (handle_import env svc recorder initiative ids t).0 ≡ returned (next d)
      → IsQuiet (handle_import env svc recorder initiative ids) t
  unfolding handle_import
  adopted_quietly initiative d ids t e =
      ground (
        arith,
        lawful.kube-import (annotation initiative.meta annotation_import_id) initiative ids t,
      )

  after_import-OneWrite :
      (initiative : AzurePolicyInitiative) (ids : List String) (t : Trace)
      (step : Step AzurePolicyInitiative)
      → (handle_import env svc recorder initiative ids t).0 ≡ returned step
      → written
          (after_import env svc recorder ids step
            (handle_import env svc recorder initiative ids t).1).1
        ≤ suc (written t)
  unfolding pure ◌>>=◌
  after_import-OneWrite initiative ids t (done a) e = handle_import-OneWrite initiative ids t
  after_import-OneWrite initiative ids t (next d) e = ground (
    arith,
    adopted_quietly initiative d ids t e,
    reconcile_initiative-OneWrite d ids (handle_import env svc recorder initiative ids t).1,
  )

  resolved_all-OneWrite :
      (initiative : AzurePolicyInitiative) (namespace : String) (t : Trace) (r : Resolved)
      → (resolve_policy_definition_ids env initiative namespace t).0 ≡ returned r
      → written
          (resolved_all env svc recorder initiative r
            (resolve_policy_definition_ids env initiative namespace t).1).1
        ≤ suc (written t)
  unfolding pure
  resolved_all-OneWrite initiative namespace t not_ready e =
      resolve-OneWrite env initiative namespace t
  resolved_all-OneWrite initiative namespace t (not_resolved failure) e =
      resolve-OneWrite env initiative namespace t
  resolved_all-OneWrite initiative namespace t (resolved ids) e =
      let s = (resolve_policy_definition_ids env initiative namespace t).1 in
      let quiet = resolved_quietly env initiative namespace t ids e in
      (rw quiet at (
        once_by (handle_import env svc recorder initiative ids) (after_import env svc recorder ids)
          s (handle_import-OneWrite initiative ids s) (after_import-OneWrite initiative ids s)))

  -- For a service that writes nothing to Kubernetes, a reconcile of an initiative makes at most one
  -- write to Kubernetes.
  pub initiative_writes_once :
      (initiative : AzurePolicyInitiative) (namespace : String) (t : Trace)
      → written (reconcile_fetched env svc recorder namespace initiative t).1 ≤ suc (written t)
  unfolding reconcile_fetched
  initiative_writes_once initiative namespace t = ground (
    arith,
    deletion-OneWrite initiative t,
    once_by (resolve_policy_definition_ids env initiative namespace)
        (resolved_all env svc recorder initiative) t (resolve-OneWrite env initiative namespace t)
        (resolved_all-OneWrite initiative namespace t),
  )
