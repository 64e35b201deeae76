-- ===== src/Definition/Adoption.antt =====
-- Importing an AzurePolicyDefinition: conflicts, adoption, and what adopt-once leaves behind.
use policy_operator.Base.{Bool, true, false, ◌≡◌, ◌≢◌, some, none, [], ◌∷◌, arith, eq_iff}
use policy_operator.Failure.{errorf, sprintf}
use policy_operator.Api.Meta.{
  annotation, annotation_import_mode, annotation_import_id, import_mode_only_once, no_requeue,
  requeue_in, default_requeue_duration, condition_false, Condition, reason_applied_once,
}
use policy_operator.Api.Definition.{AzurePolicyDefinition}
use policy_operator.World.{Env, Trace, Object, update_status, kube_call}
use policy_operator.World.Go.{returned}
use policy_operator.Common.Reconcile.{answer, or_observe_only}
use policy_operator.Definition.Object.{DefinitionService, has_finalizer, set_condition}
use policy_operator.Definition.Import.{handle_import}
use policy_operator.Definition.Controller.{reconcile_fetched}

module _ (env : Env) (svc : DefinitionService) (recorder : Bool) where
  -- The status that reports a conflict keeps the recorded ID.
  abbrev pub conflicting : AzurePolicyDefinition → AzurePolicyDefinition
  conflicting def =
      set_condition env condition_false "ImportConflict"
        (sprintf "annotation import-id %q differs from already bound policyDefinitionId %q"
          (annotation def.meta annotation_import_id ∷ def.status.policy_definition_id ∷ []))
        def

  -- Reconciling a definition with the finalizer that is not being deleted, whose import ID and
  -- recorded ID are set and differ as texts, returns the error of a conflict and makes one status
  -- update and no other call.
  pub rebinding_conflicts :
      (def : AzurePolicyDefinition) (t : Trace)
      → def.meta.is_deleting ≡ false
      → has_finalizer env def ≡ true
      → annotation def.meta annotation_import_id ≢ ""
      → def.status.policy_definition_id ≢ ""
      → annotation def.meta annotation_import_id ≢ def.status.policy_definition_id
      → reconcile_fetched env svc recorder def t ≡ (
        returned (
            answer no_requeue (
              some (
                errorf
                  "import conflict: annotation import-id %q differs from already bound policyDefinitionId %q"
                  (annotation def.meta annotation_import_id
                    ∷ def.status.policy_definition_id
                    ∷ [])))),
        kube_call (update_status (Object.definition (conflicting def))) ∷ t,
      )
  unfolding reconcile_fetched handle_import
  rebinding_conflicts def t live final import_id bound differs =
      simp (live, final)
        (ground (
          arith,
          eq_iff (annotation def.meta annotation_import_id) "",
          eq_iff def.status.policy_definition_id "",
          eq_iff (annotation def.meta annotation_import_id) def.status.policy_definition_id,
        ))

  -- Once the Ready condition says AppliedOnce, an adopt-once import makes no call at all.
  pub applied_once_rests :
      (def : AzurePolicyDefinition) (t : Trace) (c : Condition)
      → def.meta.is_deleting ≡ false
      → has_finalizer env def ≡ true
      → annotation def.meta annotation_import_id ≢ ""
      → annotation def.meta annotation_import_id ≡ def.status.policy_definition_id
      → annotation def.meta annotation_import_mode ≡ import_mode_only_once
      → env.find_status_condition def.status.conditions "Ready" ≡ some c
      → c.reason ≡ reason_applied_once
      → reconcile_fetched env svc recorder def t
        ≡ (returned (answer (requeue_in default_requeue_duration) none), t)
  unfolding reconcile_fetched handle_import or_observe_only
  applied_once_rests def t c live final import_id same mode stored reason =
      simp (live, final, mode, stored, reason)
        (ground (
          arith,
          eq_iff (annotation def.meta annotation_import_id) "",
          eq_iff (annotation def.meta annotation_import_id) def.status.policy_definition_id,
        ))
