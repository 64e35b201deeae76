-- ===== src/Initiative/Writes.antt =====
-- What the AzurePolicyInitiative controller changes in Azure, and when.
use policy_operator.Base.{Bool, true, false, String, List, [], ◌≡◌, ◌≢◌, ◌∷◌, arith, eq_iff}
use policy_operator.Api.Meta.{
  annotation, annotation_import_id, annotation_import_mode, import_mode_observe_only,
}
use policy_operator.Api.Initiative.{AzurePolicyInitiative, PolicyDefinitionReference}
use policy_operator.World.{Event, kube_call, get, Kind, Env, Trace, delete_set_definition}
use policy_operator.World.Go.{◌>>=◌, pure, Outcome, returned, panicked}
use policy_operator.World.Go.Keeps.{keeps}
use policy_operator.World.Views.{arm_writes, arm_calls}
use policy_operator.Common.Reconcile.{or_observe_only, Step, done, next}
use policy_operator.Common.Naming.{place_of}
use policy_operator.Initiative.Object.{InitiativeService, has_finalizer}
use policy_operator.Initiative.Service.{deleted_name, delete}
use policy_operator.Initiative.Wiring.{IsLawful, service}
use policy_operator.Initiative.Deletion.{handle_deletion}
use policy_operator.Initiative.Resolve.{
  Resolved, resolved, not_ready, not_resolved, resolve_refs, resolve_policy_definition_ids,
}
use policy_operator.Initiative.Import.{handle_import}
use policy_operator.Initiative.Controller.{reconcile_fetched, resolved_all}

-- the import did not stop the reconcile
abbrev goes_on : Outcome (Step AzurePolicyInitiative) → Bool
goes_on (returned (next initiative)) = true
goes_on (returned (done a)) = false
goes_on panicked = false

module _ (env : Env) (initiative : AzurePolicyInitiative) (namespace : String) where
  abbrev lookup : PolicyDefinitionReference → Event
  lookup ref =
      kube_call
        (get Kind.definition (record { namespace = namespace; name = ref.policy_definition_ref }))

  calls-resolve_refs :
      (refs : List PolicyDefinitionReference) (t : Trace)
      → arm_writes (resolve_refs env initiative namespace refs t).1 ≡ arm_writes t
  unfolding resolve_refs
  calls-resolve_refs [] t = ground arith
  calls-resolve_refs (ref ∷ refs) t =
      ground (arith, calls-resolve_refs refs t, calls-resolve_refs refs (lookup ref ∷ t))

  writes-resolve :
      (t : Trace)
      → arm_writes (resolve_policy_definition_ids env initiative namespace t).1 ≡ arm_writes t
  unfolding resolve_policy_definition_ids
  writes-resolve t = calls-resolve_refs initiative.spec.policy_definitions t

module _ (env : Env) (svc : InitiativeService) (recorder : Bool) where
  -- Reconciling an initiative that does not hold the finalizer calls nothing in Azure.
  no_initiative_finalizer_no_calls :
      (initiative : AzurePolicyInitiative) (namespace : String) (t : Trace)
      → has_finalizer env initiative ≡ false
      → arm_calls (reconcile_fetched env svc recorder namespace initiative t).1 ≡ arm_calls t
  unfolding reconcile_fetched handle_deletion
  no_initiative_finalizer_no_calls initiative namespace t missing = ground arith

module _ (env : Env) (svc : InitiativeService) (recorder : Bool) (lawful : IsLawful svc) where
  writes-handle_import :
      (initiative : AzurePolicyInitiative) (ids : List String) (t : Trace)
      → arm_writes (handle_import env svc recorder initiative ids t).1 ≡ arm_writes t
  unfolding handle_import
  writes-handle_import initiative ids t = ground (
    arith,
    lawful.writes-import (annotation initiative.meta annotation_import_id) initiative ids t,
  )

  observe_only_stops :
      (initiative : AzurePolicyInitiative) (ids : List String) (t : Trace)
      → annotation initiative.meta annotation_import_id ≢ ""
      → or_observe_only (annotation initiative.meta annotation_import_mode)
        ≡ import_mode_observe_only
      → goes_on (handle_import env svc recorder initiative ids t).0 ≡ false
  unfolding handle_import
  observe_only_stops initiative ids t bound mode = ground (
    arith,
    eq_iff (annotation initiative.meta annotation_import_id) "",
    eq_iff (or_observe_only (annotation initiative.meta annotation_import_mode))
        import_mode_observe_only,
  )

  observe_only_after :
      (initiative : AzurePolicyInitiative) (r : Resolved) (t : Trace)
      → annotation initiative.meta annotation_import_id ≢ ""
      → or_observe_only (annotation initiative.meta annotation_import_mode)
        ≡ import_mode_observe_only
      → arm_writes (resolved_all env svc recorder initiative r t).1 ≡ arm_writes t
  unfolding ◌>>=◌ pure
  observe_only_after initiative not_ready t bound mode = ground arith
  observe_only_after initiative (not_resolved e) t bound mode = ground arith
  observe_only_after initiative (resolved ids) t bound mode =
      ground (
        arith,
        writes-handle_import initiative ids t,
        observe_only_stops initiative ids t bound mode,
      )

  -- For a service whose lookups write nothing, reconciling an initiative with an import ID that is
  -- not being deleted and whose mode is observe-only or unset makes no write to Azure.
  pub initiative_observe_only_writes :
      (initiative : AzurePolicyInitiative) (namespace : String) (t : Trace)
      → initiative.meta.is_deleting ≡ false
      → annotation initiative.meta annotation_import_id ≢ ""
      → or_observe_only (annotation initiative.meta annotation_import_mode)
        ≡ import_mode_observe_only
      → arm_writes (reconcile_fetched env svc recorder namespace initiative t).1 ≡ arm_writes t
  unfolding reconcile_fetched
  initiative_observe_only_writes initiative namespace t live bound mode = ground (
    arith,
    keeps arm_writes (resolve_policy_definition_ids env initiative namespace)
        (resolved_all env svc recorder initiative) t (writes-resolve env initiative namespace t)
        (λ r s. observe_only_after initiative r s bound mode),
  )

module _ (env : Env) (recorder : Bool) where
  -- Deleting an initiative with the finalizer, a recorded ID and no import mode writes its deletion
  -- to Azure and nothing else.
  initiative_unset_mode_deletes :
      (initiative : AzurePolicyInitiative) (namespace : String) (t : Trace)
      → initiative.meta.is_deleting ≡ true
      → has_finalizer env initiative ≡ true
      → annotation initiative.meta annotation_import_mode ≡ ""
      → initiative.status.initiative_id ≢ ""
      → arm_writes (reconcile_fetched env (service env) recorder namespace initiative t).1
        ≡ delete_set_definition
            (place_of initiative.spec.management_group_id)
            (deleted_name initiative)
          ∷ arm_writes t
  unfolding reconcile_fetched handle_deletion delete
  initiative_unset_mode_deletes initiative namespace t deleting final mode bound =
      simp (deleting, final, mode) (ground (arith, eq_iff (initiative.status.initiative_id) ""))
