-- ===== src/Assignment/Lifecycle/Live.antt =====
-- What a reconcile of a live AzurePolicyAssignment writes to Kubernetes.
use policy_operator.Base.{Bool, true, false, String, ◌≡◌, ◌∷◌, ◌/=◌, ap, sym, ◌∙◌, arith}
use policy_operator.Base.Lists.{ne-cons}
use policy_operator.Failure.{Result, ok, err}
use policy_operator.Api.Meta.{annotation, annotation_import_mode, annotation_import_id}
use policy_operator.Api.Assignment.{AzurePolicyAssignment}
use policy_operator.World.{Env, Trace, KubeCall}
use policy_operator.World.Go.{◌>>=◌, pure, kube_update_status, record_event, returned}
use policy_operator.World.Go.Quiet.{Makes, made_later, made_by}
use policy_operator.World.Views.{kube_writes}
use policy_operator.Common.Reconcile.{or_observe_only, Step, done, next}
use policy_operator.Assignment.Object.{
  Live, PolicyAssignmentService, set_condition, set_imported_condition, set_drift_condition,
  has_finalizer,
}
use policy_operator.Assignment.Wiring.{IsLawful}
use policy_operator.Assignment.Import.{handle_import, import_done}
use policy_operator.Assignment.Resolve.{resolve_policy_definition_id}
use policy_operator.Assignment.Controller.{reconcile_fetched, after_import, after_resolve}
use policy_operator.Assignment.Lifecycle.Writes.{Reports, Adopts, adopted_writes, reconcile_writes}

module _ (env : Env) (svc : PolicyAssignmentService) (recorder : Bool) (lawful : IsLawful svc) where
  import_done_writes :
      (assignment : AzurePolicyAssignment) (id mode : String) (r : Result Live) (t : Trace)
      (w : KubeCall)
      → Makes (import_done env svc recorder assignment id mode r) t w
      → (id /= "") ≡ true
      → Reports assignment w
  unfolding ◌>>=◌ kube_update_status record_event set_condition set_imported_condition
      set_drift_condition pure
  import_done_writes assignment id mode (ok live) t w h given =
      ground (arith, ne-cons w (kube_writes t))
  import_done_writes assignment id mode (err e) t w h given =
      ground (arith, ne-cons w (kube_writes t))

  import_writes :
      (assignment : AzurePolicyAssignment) (definition : String) (t : Trace) (w : KubeCall)
      → Makes (handle_import env svc recorder assignment definition) t w
      → Reports assignment w
  unfolding handle_import
  import_writes assignment definition t w h =
      let id = annotation assignment.meta annotation_import_id in
      let mode = or_observe_only (annotation assignment.meta annotation_import_mode) in
      ground (
        arith,
        made_later (svc.import id assignment definition)
            (import_done env svc recorder assignment id mode) t w
            (lawful.kube-import id assignment definition t)
            (λ r e s. import_done_writes assignment id mode r s w),
        ne-cons w (kube_writes t),
      )

  pub adopted_quietly :
      (assignment d : AzurePolicyAssignment) (definition : String) (t : Trace)
      → (handle_import env svc recorder assignment definition t).0 ≡ returned (next d)
      → (kube_writes (handle_import env svc recorder assignment definition t).1 ≡ kube_writes t)
        × Adopts env svc recorder lawful assignment d
  unfolding handle_import
  adopted_quietly assignment d definition t h = ground (
    arith,
    lawful.kube-import (annotation assignment.meta annotation_import_id) assignment definition t,
  )

  import_step_writes :
      (assignment : AzurePolicyAssignment) (definition : String) (t : Trace) (w : KubeCall)
      (step : Step AzurePolicyAssignment)
      → (handle_import env svc recorder assignment definition t).0 ≡ returned step
      → kube_writes
          (after_import env svc recorder definition step
            (handle_import env svc recorder assignment definition t).1).1
        ≡ w ∷ kube_writes t
      → Reports assignment w
  unfolding pure
  import_step_writes assignment definition t w (done a) e h =
      import_writes assignment definition t w h
  import_step_writes assignment definition t w (next d) e h =
      let (quiet, same) = adopted_quietly assignment d definition t e in
      adopted_writes env svc recorder lawful assignment d w same (
        reconcile_writes env svc recorder lawful d definition
          (handle_import env svc recorder assignment definition t).1 w
          (h ∙ ap (λ ks. w ∷ ks) (sym quiet)))

  resolve_writes :
      (assignment : AzurePolicyAssignment) (namespace : String) (t : Trace) (w : KubeCall)
      → Makes (resolve_policy_definition_id env namespace assignment) t w
      → Reports assignment w
  unfolding resolve_policy_definition_id
  resolve_writes assignment namespace t w h = ground (arith, ne-cons w (kube_writes t))

  pub resolved_quietly :
      (assignment : AzurePolicyAssignment) (namespace id : String) (t : Trace)
      → (resolve_policy_definition_id env namespace assignment t).0 ≡ returned (next id)
      → kube_writes (resolve_policy_definition_id env namespace assignment t).1 ≡ kube_writes t
  unfolding resolve_policy_definition_id
  resolved_quietly assignment namespace id t h = ground arith

  resolve_step_writes :
      (assignment : AzurePolicyAssignment) (namespace : String) (t : Trace) (w : KubeCall)
      (step : Step String)
      → (resolve_policy_definition_id env namespace assignment t).0 ≡ returned step
      → kube_writes
          (after_resolve env svc recorder assignment step
            (resolve_policy_definition_id env namespace assignment t).1).1
        ≡ w ∷ kube_writes t
      → Reports assignment w
  unfolding pure
  resolve_step_writes assignment namespace t w (done a) e h =
      resolve_writes assignment namespace t w h
  resolve_step_writes assignment namespace t w (next id) e h =
      let quiet = resolved_quietly assignment namespace id t e in
      let s = (resolve_policy_definition_id env namespace assignment t).1 in
      made_by (handle_import env svc recorder assignment id) (after_import env svc recorder id) s w
        (import_step_writes assignment id s w) (import_writes assignment id s w)
        (h ∙ ap (λ ks. w ∷ ks) (sym quiet))

  pub live_writes :
      (assignment : AzurePolicyAssignment) (namespace : String) (t : Trace) (w : KubeCall)
      → assignment.meta.is_deleting ≡ false
      → has_finalizer env assignment ≡ true
      → Makes (reconcile_fetched env svc recorder namespace assignment) t w
      → Reports assignment w
  unfolding reconcile_fetched
  live_writes assignment namespace t w live held h = ground (
    arith,
    made_by (resolve_policy_definition_id env namespace assignment)
        (after_resolve env svc recorder assignment) t w
        (resolve_step_writes assignment namespace t w) (resolve_writes assignment namespace t w),
  )
