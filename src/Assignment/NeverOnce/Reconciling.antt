-- ===== src/Assignment/NeverOnce/Reconciling.antt =====
-- No status that the assignment controller stores has the reason AppliedOnce.
use policy_operator.World.Go.Once.{IncludesWrite, only_write}
use policy_operator.Assignment.Once.{assignment_writes_once}
use policy_operator.Base.{Bool, true, false, String, [], ◌∷◌, ◌≡◌, refl, arith, ap, sym, ◌∙◌}
use policy_operator.Base.Lists.{ne-cons}
use policy_operator.Failure.{Result, ok, err, plain, sprintf, error_text, sprintf_error}
use policy_operator.Api.Meta.{
  annotation, annotation_import_mode, annotation_import_id, condition_true, condition_false,
}
use policy_operator.Api.Assignment.{AzurePolicyAssignment}
use policy_operator.World.{Env, Trace, KubeCall, IsMachinery}
use policy_operator.World.Go.{
  ◌>>=◌, pure, kube_update_status, record_if_set, record_event, returned,
}
use policy_operator.World.Go.Quiet.{Makes, made_later, made_by}
use policy_operator.World.Views.{kube_writes}
use policy_operator.Common.Reconcile.{or_observe_only, Step, done, next}
use policy_operator.Assignment.Object.{Live, PolicyAssignmentService}
use policy_operator.Assignment.Wiring.{IsLawful}
use policy_operator.Assignment.Import.{handle_import, import_done, with_live}
use policy_operator.Assignment.Object.{set_drift_condition, set_imported_condition}
use policy_operator.Assignment.Controller.{after_import, after_resolve, reconcile_fetched}
use policy_operator.Assignment.Resolve.{resolve_policy_definition_id, resolve_found}
use policy_operator.Assignment.Lifecycle.Live.{adopted_quietly}
use policy_operator.World.Go.{Go, ask, kube_update}
use policy_operator.World.Go.Quiet.{IsQuiet}
use policy_operator.World.{kube_call, get, Kind}
use policy_operator.Assignment.Deletion.{handle_deletion, cleaned_up}
use policy_operator.Assignment.Lifecycle.Live.{resolved_quietly}
use policy_operator.World.{Fetched, found, not_found, get_failed}
use policy_operator.Failure.{kube}
use policy_operator.Api.Definition.{AzurePolicyDefinition}
use policy_operator.Assignment.NeverOnce.{NotOnce, plain_condition, reconcile-NotOnce}

module _ (env : Env) (machinery : IsMachinery env) (svc : PolicyAssignmentService) (recorder : Bool)
    (lawful : IsLawful svc) where
  import_done-NotOnce :
      (assignment : AzurePolicyAssignment) (id mode : String) (r : Result Live) (t : Trace)
      (w : KubeCall)
      → Makes (import_done env svc recorder assignment id mode r) t w
      → NotOnce env w
  unfolding ◌>>=◌ kube_update_status record_event pure
  import_done-NotOnce assignment id mode (ok live) t w h = ground (
    arith,
    ne-cons w (kube_writes t),
    plain_condition env machinery condition_true "ObservedOnly"
        (plain "Resource imported in observe-only mode. No changes applied to Azure.")
        (set_drift_condition env live.drift (
          set_imported_condition env condition_true "ImportSucceeded"
            (plain "Existing Azure Policy Assignment was adopted successfully.")
            (with_live env svc recorder id live assignment)))
        refl,
  )
  import_done-NotOnce assignment id mode (err e) t w h = ground (
    arith,
    plain_condition env machinery condition_false "ImportFailed" (error_text e)
        (set_imported_condition env condition_false "ImportFailed" (error_text e) assignment) refl,
  )

  import-NotOnce :
      (assignment : AzurePolicyAssignment) (definition : String) (t : Trace) (w : KubeCall)
      → Makes (handle_import env svc recorder assignment definition) t w
      → NotOnce env w
  unfolding handle_import
  import-NotOnce assignment definition t w h =
      let id = annotation assignment.meta annotation_import_id in
      let mode = or_observe_only (annotation assignment.meta annotation_import_mode) in
      ground (
        arith,
        made_later (svc.import id assignment definition)
            (import_done env svc recorder assignment id mode) t w
            (lawful.kube-import id assignment definition t)
            (λ r e s. import_done-NotOnce assignment id mode r s w),
        plain_condition env machinery condition_false "ImportConflict"
            (sprintf "annotation import-id %q differs from already bound assignmentId %q"
              (id ∷ assignment.status.assignment_id ∷ []))
            assignment refl,
        ne-cons w (kube_writes t),
      )

  import_step-NotOnce :
      (assignment : AzurePolicyAssignment) (definition : String) (t : Trace) (w : KubeCall)
      (step : Step AzurePolicyAssignment)
      → (handle_import env svc recorder assignment definition t).0 ≡ returned step
      → kube_writes
          (after_import env svc recorder definition step
            (handle_import env svc recorder assignment definition t).1).1
        ≡ w ∷ kube_writes t
      → NotOnce env w
  unfolding pure
  import_step-NotOnce assignment definition t w (done a) e h =
      import-NotOnce assignment definition t w h
  import_step-NotOnce assignment definition t w (next d) e h =
      let (quiet, same) = adopted_quietly env svc recorder lawful assignment d definition t e in
      reconcile-NotOnce env machinery svc recorder lawful d definition
        (handle_import env svc recorder assignment definition t).1 w
        (h ∙ ap (λ ks. w ∷ ks) (sym quiet))

  resolve_found-NotOnce :
      (assignment : AzurePolicyAssignment) (namespace : String)
      (object : Fetched AzurePolicyDefinition) (t : Trace) (w : KubeCall)
      → Makes (resolve_found env namespace assignment object) t w
      → NotOnce env w
  unfolding ◌>>=◌ kube_update_status pure
  resolve_found-NotOnce assignment namespace (not_found text) t w h = ground (
    arith,
    plain_condition env machinery condition_false "RefNotFound"
        (sprintf_error "AzurePolicyDefinition %q not found: %v"
          (assignment.spec.policy_definition_ref ∷ []) (kube true text))
        assignment refl,
  )
  resolve_found-NotOnce assignment namespace (get_failed text) t w h = ground (
    arith,
    plain_condition env machinery condition_false "RefNotFound"
        (sprintf_error "AzurePolicyDefinition %q not found: %v"
          (assignment.spec.policy_definition_ref ∷ []) (kube false text))
        assignment refl,
  )
  resolve_found-NotOnce assignment namespace (found def) t w h = ground (
    arith,
    ne-cons w (kube_writes t),
    plain_condition env machinery condition_false "RefNotReady"
        (sprintf "AzurePolicyDefinition %q has no policyDefinitionId in status yet"
          (assignment.spec.policy_definition_ref ∷ []))
        assignment refl,
  )

  abbrev lookup : AzurePolicyAssignment → String → Go (Fetched AzurePolicyDefinition)
  lookup assignment namespace =
      ask
        (kube_call (
          get Kind.definition
            (record { namespace = namespace; name = assignment.spec.policy_definition_ref })))
        env.definition_object

  lookup-IsQuiet :
      (assignment : AzurePolicyAssignment) (namespace : String) (t : Trace)
      → IsQuiet (lookup assignment namespace) t
  unfolding ask
  lookup-IsQuiet assignment namespace t = refl

  resolve-NotOnce :
      (assignment : AzurePolicyAssignment) (namespace : String) (t : Trace) (w : KubeCall)
      → Makes (resolve_policy_definition_id env namespace assignment) t w
      → NotOnce env w
  unfolding resolve_policy_definition_id
  resolve-NotOnce assignment namespace t w h = ground (
    arith,
    ne-cons w (kube_writes t),
    made_later (lookup assignment namespace) (resolve_found env namespace assignment) t w
        (lookup-IsQuiet assignment namespace t)
        (λ object e s. resolve_found-NotOnce assignment namespace object s w),
  )

  resolve_step-NotOnce :
      (assignment : AzurePolicyAssignment) (namespace : String) (t : Trace) (w : KubeCall)
      (step : Step String)
      → (resolve_policy_definition_id env namespace assignment t).0 ≡ returned step
      → kube_writes
          (after_resolve env svc recorder assignment step
            (resolve_policy_definition_id env namespace assignment t).1).1
        ≡ w ∷ kube_writes t
      → NotOnce env w
  unfolding pure
  resolve_step-NotOnce assignment namespace t w (done a) e h =
      resolve-NotOnce assignment namespace t w h
  resolve_step-NotOnce assignment namespace t w (next id) e h =
      let quiet = resolved_quietly env svc recorder lawful assignment namespace id t e in
      let s = (resolve_policy_definition_id env namespace assignment t).1 in
      made_by (handle_import env svc recorder assignment id) (after_import env svc recorder id) s w
        (import_step-NotOnce assignment id s w) (import-NotOnce assignment id s w)
        (h ∙ ap (λ ks. w ∷ ks) (sym quiet))

  cleaned_up-NotOnce :
      (assignment : AzurePolicyAssignment) (r : Result (Unit {0})) (t : Trace) (w : KubeCall)
      → Makes (cleaned_up env svc recorder assignment r) t w
      → NotOnce env w
  unfolding ◌>>=◌ kube_update kube_update_status record_if_set pure
  cleaned_up-NotOnce assignment (ok u) t w h = ground arith
  cleaned_up-NotOnce assignment (err e) t w h = ground (
    arith,
    plain_condition env machinery condition_false "DeleteFailed" (error_text e) assignment refl,
  )

  deletion-NotOnce :
      (assignment : AzurePolicyAssignment) (t : Trace) (w : KubeCall)
      → Makes (handle_deletion env svc recorder assignment) t w
      → NotOnce env w
  unfolding handle_deletion
  deletion-NotOnce assignment t w h = ground (
    arith,
    ne-cons w (kube_writes t),
    made_later
        (svc.delete assignment.spec.scope assignment.status.assignment_id
          assignment.status.exemptions assignment.spec.identity)
        (cleaned_up env svc recorder assignment) t w
        (lawful.kube-delete assignment.spec.scope assignment.status.assignment_id
          assignment.status.exemptions assignment.spec.identity t)
        (λ r e s. cleaned_up-NotOnce assignment r s w),
  )

  only-NotOnce :
      (assignment : AzurePolicyAssignment) (namespace : String) (t : Trace) (w : KubeCall)
      → kube_writes (reconcile_fetched env svc recorder namespace assignment t).1
        ≡ w ∷ kube_writes t
      → NotOnce env w
  unfolding reconcile_fetched
  only-NotOnce assignment namespace t w h = ground (
    arith,
    deletion-NotOnce assignment t w,
    made_by (resolve_policy_definition_id env namespace assignment)
        (after_resolve env svc recorder assignment) t w
        (resolve_step-NotOnce assignment namespace t w) (resolve-NotOnce assignment namespace t w),
  )

  -- Where apimachinery and the service meet their laws, no write that a reconcile of an assignment
  -- makes to Kubernetes is a status whose Ready condition has the reason AppliedOnce.
  pub assignment_never_applied_once :
      (assignment : AzurePolicyAssignment) (namespace : String) (t : Trace) (w : KubeCall)
      → IncludesWrite (reconcile_fetched env svc recorder namespace assignment) t w
      → NotOnce env w
  assignment_never_applied_once assignment namespace t w writes =
      only-NotOnce assignment namespace t w (
        only_write (reconcile_fetched env svc recorder namespace assignment) t w
          (assignment_writes_once env svc recorder lawful assignment namespace t) writes)
