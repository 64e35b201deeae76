-- ===== src/Definition/Lifecycle/Writes.antt =====
-- What the parts of a reconcile of an AzurePolicyDefinition write to Kubernetes.
use policy_operator.World.Go.{record_event}
use policy_operator.Base.{List, ap, sym, ◌∙◌, Bool, true, false, String, ◌≡◌, ◌⊎◌, ◌∷◌, ◌/=◌, arith}
use policy_operator.Base.Lists.{ne-cons}
use policy_operator.Failure.{Result, ok, err}
use policy_operator.Api.Meta.{annotation, annotation_import_mode, annotation_import_id}
use policy_operator.Api.Definition.{AzurePolicyDefinition}
use policy_operator.World.{Env, Trace, Object, KubeCall, update, update_status}
use policy_operator.World.Go.{◌>>=◌, pure, kube_update_status, record_if_set, returned}
use policy_operator.World.Try
use policy_operator.World.Go.Quiet.{Makes, made_later, made_by, assoc}
use policy_operator.World.Go.Ids.{has_id}
use policy_operator.World.Views.{kube_writes}
use policy_operator.Common.Reconcile.{or_observe_only, Step, done, next}
use policy_operator.Definition.Object.{
  set_condition, set_imported_condition, set_drift_condition, DefinitionService, has_finalizer,
  remove_finalizer,
}
use policy_operator.Definition.Wiring.{IsLawful}
use policy_operator.Definition.Deletion.{handle_deletion}
use policy_operator.Definition.Apply.{
  reconcile_definition, existing, write_unless, applied, applied_object,
}
use policy_operator.Definition.Import.{handle_import, import_done}
use policy_operator.Definition.Controller.{reconcile_fetched, after_import}

-- A status that keeps the recorded ID.
abbrev pub KeepsId : AzurePolicyDefinition → KubeCall → Type 0
KeepsId def (update_status (Object.definition d)) =
    d.status.policy_definition_id ≡ def.status.policy_definition_id
KeepsId def _ = ⊥

-- A status that keeps the recorded ID or has one.
abbrev pub Reports : AzurePolicyDefinition → KubeCall → Type 0
Reports def (update_status (Object.definition d)) =
    (d.status.policy_definition_id ≡ def.status.policy_definition_id)
    ⊎ ((d.status.policy_definition_id /= "") ≡ true)
Reports def _ = ⊥

-- Azure gives what it creates an ID.
abbrev pub GivesIds : DefinitionService → Type 0
GivesIds svc =
    (def : AzurePolicyDefinition) (t : Trace) → has_id (svc.create_or_update def t).0 ≡ true

module _ (env : Env) (svc : DefinitionService) (recorder : Bool) (lawful : IsLawful svc) where
  pub deletion_writes :
      (def : AzurePolicyDefinition) (t : Trace) (w : KubeCall)
      → kube_writes (handle_deletion env svc recorder def t).1 ≡ w ∷ kube_writes t
      → (w ≡ update (Object.definition (remove_finalizer env def))) ⊎ KeepsId def w
  unfolding handle_deletion
  deletion_writes def t w h = ground (arith, lawful.kube-delete def t, ne-cons w (kube_writes t))

  applied_writes :
      (def : AzurePolicyDefinition) (was_created : Bool) (r : Result String) (t : Trace)
      (w : KubeCall)
      → has_id (returned r) ≡ true
      → kube_writes (applied env svc recorder def was_created r t).1 ≡ w ∷ kube_writes t
      → Reports def w
  unfolding ◌>>=◌ kube_update_status record_if_set set_condition applied_object pure
  applied_writes def was_created (ok id) t w given h = ground arith
  applied_writes def was_created (err e) t w given h = ground arith

  import_done_writes :
      (def : AzurePolicyDefinition) (id mode : String) (r : Result (List String)) (t : Trace)
      (w : KubeCall)
      → Makes (import_done env svc recorder def id mode r) t w
      → (id /= "") ≡ true
      → Reports def w
  unfolding ◌>>=◌ kube_update_status record_event record_if_set set_condition set_imported_condition
      set_drift_condition pure
  import_done_writes def id mode (ok drift) t w h given = ground (arith, ne-cons w (kube_writes t))
  import_done_writes def id mode (err e) t w h given = ground (arith, ne-cons w (kube_writes t))

  import_writes :
      (def : AzurePolicyDefinition) (t : Trace) (w : KubeCall)
      → Makes (handle_import env svc recorder def) t w
      → Reports def w
  unfolding handle_import
  import_writes def t w h =
      let id = annotation def.meta annotation_import_id in
      let mode = or_observe_only (annotation def.meta annotation_import_mode) in
      ground (
        arith,
        made_later (svc.import id def) (import_done env svc recorder def id mode) t w
            (lawful.kube-import id def t) (λ r e s. import_done_writes def id mode r s w),
        ne-cons w (kube_writes t),
      )

  adopted_quietly :
      (def d : AzurePolicyDefinition) (t : Trace)
      → (handle_import env svc recorder def t).0 ≡ returned (next d)
      → (kube_writes (handle_import env svc recorder def t).1 ≡ kube_writes t)
        × ((d.status.policy_definition_id ≡ def.status.policy_definition_id)
            ⊎ ((d.status.policy_definition_id /= "") ≡ true))
  unfolding handle_import
  adopted_quietly def d t h =
      ground (arith, lawful.kube-import (annotation def.meta annotation_import_id) def t)

  module _ (gives_ids : GivesIds svc) where
    written :
        (def : AzurePolicyDefinition) (was_created : Bool) (t : Trace) (w : KubeCall)
        → Makes (svc.create_or_update def >>= applied env svc recorder def was_created) t w
        → Reports def w
    written def was_created t w =
        made_later (svc.create_or_update def) (applied env svc recorder def was_created) t w
          (lawful.kube-create_or_update def t)
          (λ r e s. applied_writes def was_created r s w (rw e at (gives_ids def t)))

    after_get :
        (def : AzurePolicyDefinition) (r : Result String) (t : Trace) (w : KubeCall)
        → Makes (existing env svc recorder def r >>= write_unless env svc recorder def) t w
        → Reports def w
    unfolding ◌>>=◌ kube_update_status record_if_set set_condition Try.pure
    after_get def r t w h = ground (arith, written def true t w, ne-cons w (kube_writes t))

    reconcile_definition_writes :
        (def : AzurePolicyDefinition) (t : Trace) (w : KubeCall)
        → Makes (reconcile_definition env svc recorder def) t w
        → Reports def w
    unfolding reconcile_definition
    reconcile_definition_writes def t w h = ground (
      arith,
      written def false t w,
      assoc (svc.get def) (existing env svc recorder def) (write_unless env svc recorder def) t,
      made_later (svc.get def)
          (λ r. existing env svc recorder def r >>= write_unless env svc recorder def) t w
          (lawful.kube-get def t) (λ r e s. after_get def r s w),
    )

    adopted_writes :
        (def d : AzurePolicyDefinition) (w : KubeCall)
        → (d.status.policy_definition_id ≡ def.status.policy_definition_id)
          ⊎ ((d.status.policy_definition_id /= "") ≡ true)
        → Reports d w
        → Reports def w
    adopted_writes def d w same h = ground arith

    import_step_writes :
        (def : AzurePolicyDefinition) (t : Trace) (w : KubeCall) (step : Step AzurePolicyDefinition)
        → (handle_import env svc recorder def t).0 ≡ returned step
        → kube_writes
            (after_import env svc recorder step (handle_import env svc recorder def t).1).1
          ≡ w ∷ kube_writes t
        → Reports def w
    unfolding pure
    import_step_writes def t w (done a) e h = import_writes def t w h
    import_step_writes def t w (next d) e h =
        let (quiet, same) = adopted_quietly def d t e in
        let s = (handle_import env svc recorder def t).1 in
        adopted_writes def d w same (
          made_by (reconcile_definition env svc recorder d) _ s w
            (λ failure f k. reconcile_definition_writes d s w k) (reconcile_definition_writes d s w)
            (h ∙ ap (λ ks. w ∷ ks) (sym quiet)))

    pub live_writes :
        (def : AzurePolicyDefinition) (t : Trace) (w : KubeCall)
        → def.meta.is_deleting ≡ false
        → has_finalizer env def ≡ true
        → Makes (reconcile_fetched env svc recorder def) t w
        → Reports def w
    unfolding reconcile_fetched
    live_writes def t w live held h = ground (
      arith,
      made_by (handle_import env svc recorder def) (after_import env svc recorder) t w
          (import_step_writes def t w) (import_writes def t w),
    )
