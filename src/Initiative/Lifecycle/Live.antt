-- ===== src/Initiative/Lifecycle/Live.antt =====
-- What a reconcile of a live AzurePolicyInitiative writes to Kubernetes: resolving its references
-- writes a condition or nothing.
use policy_operator.Base.{Bool, true, false, String, List, [], ◌∷◌, ◌≡◌, ap, sym, ◌∙◌, arith}
use policy_operator.Base.Lists.{ne-cons}
use policy_operator.Api.Initiative.{AzurePolicyInitiative, PolicyDefinitionReference}
use policy_operator.World.{Env, Trace, Event, KubeCall, kube_call, get, Kind}
use policy_operator.World.Go.{pure, Outcome, returned}
use policy_operator.World.Go.Quiet.{Makes, made_by}
use policy_operator.World.Views.{kube_writes}
use policy_operator.Initiative.Object.{InitiativeService, has_finalizer}
use policy_operator.Initiative.Wiring.{IsLawful}
use policy_operator.Initiative.Import.{handle_import}
use policy_operator.Initiative.Resolve.{
  Resolved, resolved, not_ready, not_resolved, resolve_refs, resolve_policy_definition_ids,
}
use policy_operator.Initiative.Controller.{reconcile_fetched, after_import, resolved_all}
use policy_operator.Initiative.Lifecycle.Writes.{
  KeepsId, Reports, GivesIds, import_writes, import_step_writes,
}

abbrev is_resolved : Outcome Resolved → Bool
is_resolved (returned (resolved ids)) = true
is_resolved _ = false

module _ (env : Env) (initiative : AzurePolicyInitiative) (namespace : String) where
  abbrev lookup : PolicyDefinitionReference → Event
  lookup ref =
      kube_call
        (get Kind.definition (record { namespace = namespace; name = ref.policy_definition_ref }))

  resolved_quietly :
      (refs : List PolicyDefinitionReference) (t : Trace)
      → is_resolved (resolve_refs env initiative namespace refs t).0 ≡ true
      → kube_writes (resolve_refs env initiative namespace refs t).1 ≡ kube_writes t
  unfolding resolve_refs
  resolved_quietly [] t h = ground arith
  resolved_quietly (ref ∷ refs) t h =
      ground (arith, resolved_quietly refs t, resolved_quietly refs (lookup ref ∷ t))

  resolve_writes :
      (refs : List PolicyDefinitionReference) (t : Trace) (w : KubeCall)
      → Makes (resolve_refs env initiative namespace refs) t w
      → KeepsId initiative w
  unfolding resolve_refs
  resolve_writes [] t w h = ground (arith, ne-cons w (kube_writes t))
  resolve_writes (ref ∷ refs) t w h = ground (
    arith,
    resolve_writes refs t w,
    resolve_writes refs (lookup ref ∷ t) w,
    ne-cons w (kube_writes t),
  )

KeepsId-Reports :
    (initiative : AzurePolicyInitiative) (w : KubeCall)
    → KeepsId initiative w
    → Reports initiative w
KeepsId-Reports initiative w keeps = ground arith

module _ (env : Env) (svc : InitiativeService) (recorder : Bool) (lawful : IsLawful svc)
    (gives_ids : GivesIds svc) (initiative : AzurePolicyInitiative) (namespace : String) where
  refs_write :
      (t : Trace) (w : KubeCall)
      → Makes (resolve_policy_definition_ids env initiative namespace) t w
      → Reports initiative w
  unfolding resolve_policy_definition_ids
  refs_write t w h =
      KeepsId-Reports initiative w
        (resolve_writes env initiative namespace initiative.spec.policy_definitions t w h)

  refs_quiet :
      (t : Trace) (ids : List String)
      → (resolve_policy_definition_ids env initiative namespace t).0 ≡ returned (resolved ids)
      → kube_writes (resolve_policy_definition_ids env initiative namespace t).1 ≡ kube_writes t
  unfolding resolve_policy_definition_ids
  refs_quiet t ids e =
      resolved_quietly env initiative namespace initiative.spec.policy_definitions t
        (ap is_resolved e)

  resolved_writes :
      (t : Trace) (w : KubeCall) (r : Resolved)
      → (resolve_policy_definition_ids env initiative namespace t).0 ≡ returned r
      → kube_writes
          (resolved_all env svc recorder initiative r
            (resolve_policy_definition_ids env initiative namespace t).1).1
        ≡ w ∷ kube_writes t
      → Reports initiative w
  unfolding pure
  resolved_writes t w not_ready e h = refs_write t w h
  resolved_writes t w (not_resolved failure) e h = refs_write t w h
  resolved_writes t w (resolved ids) e h =
      let quiet = refs_quiet t ids e in
      let s = (resolve_policy_definition_ids env initiative namespace t).1 in
      made_by (handle_import env svc recorder initiative ids) (after_import env svc recorder ids) s
        w (import_step_writes env svc recorder lawful gives_ids initiative ids s w)
        (import_writes env svc recorder lawful initiative ids s w)
        (h ∙ ap (λ ks. w ∷ ks) (sym quiet))

  pub live_writes :
      (t : Trace) (w : KubeCall)
      → initiative.meta.is_deleting ≡ false
      → has_finalizer env initiative ≡ true
      → Makes (reconcile_fetched env svc recorder namespace initiative) t w
      → Reports initiative w
  unfolding reconcile_fetched
  live_writes t w live held h = ground (
    arith,
    made_by (resolve_policy_definition_ids env initiative namespace)
        (resolved_all env svc recorder initiative) t w (resolved_writes t w) (refs_write t w),
  )
