-- ===== src/Initiative/Lifecycle/Writes.antt =====
-- What the parts of a reconcile of an AzurePolicyInitiative write to Kubernetes.
use policy_operator.Base.{List, ap, sym, ◌∙◌, Bool, true, false, String, ◌≡◌, ◌⊎◌, ◌∷◌, ◌/=◌, arith}
use policy_operator.Base.Lists.{ne-cons}
use policy_operator.Failure.{Result, ok, err}
use policy_operator.Api.Meta.{annotation, annotation_import_mode, annotation_import_id}
use policy_operator.Api.Initiative.{AzurePolicyInitiative}
use policy_operator.World.{Env, Trace, Object, KubeCall, update, update_status}
use policy_operator.World.Go.{◌>>=◌, pure, kube_update_status, record_if_set, returned}
use policy_operator.World.Try
use policy_operator.World.Go.Quiet.{Makes, made_later, made_by, assoc}
use policy_operator.World.Go.Ids.{has_id}
use policy_operator.World.Views.{kube_writes}
use policy_operator.Common.Reconcile.{or_observe_only, Step, done, next}
use policy_operator.Initiative.Object.{
  set_condition, set_imported_condition, set_drift_condition, InitiativeService, remove_finalizer,
}
use policy_operator.Initiative.Wiring.{IsLawful}
use policy_operator.Initiative.Deletion.{handle_deletion}
use policy_operator.Initiative.Apply.{
  reconcile_initiative, existing, write_unless, applied, applied_object,
}
use policy_operator.Initiative.Import.{handle_import, import_done}
use policy_operator.Initiative.Controller.{after_import}

-- A status that keeps the recorded ID.
abbrev pub KeepsId : AzurePolicyInitiative → KubeCall → Type 0
KeepsId initiative (update_status (Object.initiative d)) =
    d.status.initiative_id ≡ initiative.status.initiative_id
KeepsId initiative _ = ⊥

-- A status that keeps the recorded ID or has one.
abbrev pub Reports : AzurePolicyInitiative → KubeCall → Type 0
Reports initiative (update_status (Object.initiative d)) =
    (d.status.initiative_id ≡ initiative.status.initiative_id)
    ⊎ ((d.status.initiative_id /= "") ≡ true)
Reports initiative _ = ⊥

-- Azure gives what it creates an ID.
abbrev pub GivesIds : InitiativeService → Type 0
GivesIds svc =
    (initiative : AzurePolicyInitiative) (resolved : List String) (t : Trace)
    → has_id (svc.create_or_update initiative resolved t).0 ≡ true

module _ (env : Env) (svc : InitiativeService) (recorder : Bool) (lawful : IsLawful svc) where
  pub deletion_writes :
      (initiative : AzurePolicyInitiative) (t : Trace) (w : KubeCall)
      → kube_writes (handle_deletion env svc recorder initiative t).1 ≡ w ∷ kube_writes t
      → (w ≡ update (Object.initiative (remove_finalizer env initiative))) ⊎ KeepsId initiative w
  unfolding handle_deletion
  deletion_writes initiative t w h =
      ground (arith, lawful.kube-delete initiative t, ne-cons w (kube_writes t))

  applied_writes :
      (initiative : AzurePolicyInitiative) (was_created : Bool) (r : Result String) (t : Trace)
      (w : KubeCall)
      → has_id (returned r) ≡ true
      → kube_writes (applied env svc recorder initiative was_created r t).1 ≡ w ∷ kube_writes t
      → Reports initiative w
  unfolding ◌>>=◌ kube_update_status record_if_set set_condition applied_object pure
  applied_writes initiative was_created (ok id) t w given h = ground arith
  applied_writes initiative was_created (err e) t w given h = ground arith

  import_done_writes :
      (initiative : AzurePolicyInitiative) (id mode : String) (r : Result (List String)) (t : Trace)
      (w : KubeCall)
      → Makes (import_done env svc recorder initiative id mode r) t w
      → (id /= "") ≡ true
      → Reports initiative w
  unfolding ◌>>=◌ kube_update_status record_if_set set_condition set_imported_condition
      set_drift_condition pure
  import_done_writes initiative id mode (ok drift) t w h given =
      ground (arith, ne-cons w (kube_writes t))
  import_done_writes initiative id mode (err e) t w h given =
      ground (arith, ne-cons w (kube_writes t))

  pub import_writes :
      (initiative : AzurePolicyInitiative) (ids : List String) (t : Trace) (w : KubeCall)
      → Makes (handle_import env svc recorder initiative ids) t w
      → Reports initiative w
  unfolding handle_import
  import_writes initiative ids t w h =
      let id = annotation initiative.meta annotation_import_id in
      let mode = or_observe_only (annotation initiative.meta annotation_import_mode) in
      ground (
        arith,
        made_later (svc.import id initiative ids) (import_done env svc recorder initiative id mode)
            t w (lawful.kube-import id initiative ids t)
            (λ r e s. import_done_writes initiative id mode r s w),
        ne-cons w (kube_writes t),
      )

  adopted_quietly :
      (initiative d : AzurePolicyInitiative) (ids : List String) (t : Trace)
      → (handle_import env svc recorder initiative ids t).0 ≡ returned (next d)
      → (kube_writes (handle_import env svc recorder initiative ids t).1 ≡ kube_writes t)
        × ((d.status.initiative_id ≡ initiative.status.initiative_id)
            ⊎ ((d.status.initiative_id /= "") ≡ true))
  unfolding handle_import
  adopted_quietly initiative d ids t h =
      ground (
        arith,
        lawful.kube-import (annotation initiative.meta annotation_import_id) initiative ids t,
      )

  module _ (gives_ids : GivesIds svc) where
    written :
        (initiative : AzurePolicyInitiative) (ids : List String) (was_created : Bool) (t : Trace)
        (w : KubeCall)
        → Makes
            (svc.create_or_update initiative ids
              >>= applied env svc recorder initiative was_created)
            t
            w
        → Reports initiative w
    written initiative ids was_created t w =
        made_later (svc.create_or_update initiative ids)
          (applied env svc recorder initiative was_created) t w
          (lawful.kube-create_or_update initiative ids t)
          (λ r e s.
            applied_writes initiative was_created r s w (rw e at (gives_ids initiative ids t)))

    after_get :
        (initiative : AzurePolicyInitiative) (ids : List String) (r : Result String) (t : Trace)
        (w : KubeCall)
        → Makes
            (existing env svc recorder initiative r
              >>= write_unless env svc recorder initiative ids)
            t
            w
        → Reports initiative w
    unfolding ◌>>=◌ kube_update_status record_if_set set_condition Try.pure
    after_get initiative ids r t w h =
        ground (arith, written initiative ids true t w, ne-cons w (kube_writes t))

    reconcile_initiative_writes :
        (initiative : AzurePolicyInitiative) (ids : List String) (t : Trace) (w : KubeCall)
        → Makes (reconcile_initiative env svc recorder initiative ids) t w
        → Reports initiative w
    unfolding reconcile_initiative
    reconcile_initiative_writes initiative ids t w h = ground (
      arith,
      written initiative ids false t w,
      assoc (svc.get initiative) (existing env svc recorder initiative)
          (write_unless env svc recorder initiative ids) t,
      made_later (svc.get initiative)
          (λ r.
            existing env svc recorder initiative r >>= write_unless env svc recorder initiative ids)
          t w (lawful.kube-get initiative t) (λ r e s. after_get initiative ids r s w),
    )

    adopted_writes :
        (initiative d : AzurePolicyInitiative) (w : KubeCall)
        → (d.status.initiative_id ≡ initiative.status.initiative_id)
          ⊎ ((d.status.initiative_id /= "") ≡ true)
        → Reports d w
        → Reports initiative w
    adopted_writes initiative d w same h = ground arith

    pub import_step_writes :
        (initiative : AzurePolicyInitiative) (ids : List String) (t : Trace) (w : KubeCall)
        (step : Step AzurePolicyInitiative)
        → (handle_import env svc recorder initiative ids t).0 ≡ returned step
        → kube_writes
            (after_import env svc recorder ids step
              (handle_import env svc recorder initiative ids t).1).1
          ≡ w ∷ kube_writes t
        → Reports initiative w
    unfolding pure
    import_step_writes initiative ids t w (done a) e h = import_writes initiative ids t w h
    import_step_writes initiative ids t w (next d) e h =
        let (quiet, same) = adopted_quietly initiative d ids t e in
        let s = (handle_import env svc recorder initiative ids t).1 in
        adopted_writes initiative d w same (
          made_by (reconcile_initiative env svc recorder d ids) _ s w
            (λ failure f k. reconcile_initiative_writes d ids s w k)
            (reconcile_initiative_writes d ids s w) (h ∙ ap (λ ks. w ∷ ks) (sym quiet)))
