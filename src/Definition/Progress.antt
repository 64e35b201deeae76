-- ===== src/Definition/Progress.antt =====
-- Where nothing fails, two reconciles make a new AzurePolicyDefinition ready, and one lets a deleted
-- one go.
use policy_operator.Base.{Bool, true, false, String, none, some, ◌∷◌, ◌≡◌, refl, arith}
use policy_operator.Failure.{ok}
use policy_operator.Api.Meta.{
  annotation, annotation_import_id, condition_true, no_requeue, requeue_in,
  default_requeue_duration,
}
use policy_operator.Api.Definition.{AzurePolicyDefinition}
use policy_operator.World.{Env, Trace, Object, update, update_status, IsMachinery}
use policy_operator.World.Go.{returned, ◌>>=◌, kube_update, record_if_set}
use policy_operator.World.Views.{kube_writes}
use policy_operator.Common.Reconcile.{answer, ready}
use policy_operator.Definition.Object.{
  DefinitionService, has_finalizer, add_finalizer, remove_finalizer, finalizer, set_condition,
}
use policy_operator.Definition.Wiring.{IsLawful}
use policy_operator.Definition.Apply.{
  reconcile_definition, check_existing_definition, applied_object, applied_reason, applied_message,
}
use policy_operator.Definition.Import.{handle_import}
use policy_operator.Definition.Deletion.{handle_deletion, cleaned_up}
use policy_operator.Definition.Controller.{reconcile_fetched}
use policy_operator.Definition.Lifecycle.{land}

module _ (env : Env) (machinery : IsMachinery env) (svc : DefinitionService) (lawful : IsLawful svc)
    (recorder : Bool) (writable : (t : Trace) → env.update_error t ≡ none)
    (def : AzurePolicyDefinition) where
  -- The object as the first reconcile stores it.
  abbrev held : AzurePolicyDefinition
  held = land (update (Object.definition (add_finalizer env def))) def

  -- The object as the second reconcile stores it.
  abbrev made : String → AzurePolicyDefinition
  made id = land (update_status (Object.definition (applied_object env held id))) held

  module _ (id : String) where
    holds_first :
        (t : Trace)
        → def.meta.is_deleting ≡ false
        → has_finalizer env def ≡ false
        → kube_writes (reconcile_fetched env svc recorder def t).1
          ≡ update (Object.definition (add_finalizer env def)) ∷ kube_writes t
    unfolding reconcile_fetched
    holds_first t live missing = ground arith

    applies :
        (d : AzurePolicyDefinition) (t : Trace)
        → ((s : Trace) → (svc.get d s).0 ≡ returned (ok ""))
        → ((s : Trace) → (svc.create_or_update d s).0 ≡ returned (ok id))
        → d.status.policy_definition_id ≡ ""
        → ((reconcile_definition env svc recorder d t).0 ≡ returned none)
          × (kube_writes (reconcile_definition env svc recorder d t).1
              ≡ update_status (Object.definition (applied_object env d id)) ∷ kube_writes t)
    unfolding reconcile_definition check_existing_definition record_if_set
    applies d t free created unbound =
        simp (unbound, free, created, writable)
          (ground (arith, lawful.kube-get d t, lawful.kube-create_or_update d (svc.get d t).1))

    -- The second reconcile imports nothing and writes.
    reports_next :
        (d : AzurePolicyDefinition) (t : Trace)
        → ((s : Trace) → (svc.get d s).0 ≡ returned (ok ""))
        → ((s : Trace) → (svc.create_or_update d s).0 ≡ returned (ok id))
        → d.meta.is_deleting ≡ false
        → has_finalizer env d ≡ true
        → annotation d.meta annotation_import_id ≡ ""
        → d.status.policy_definition_id ≡ ""
        → ((reconcile_fetched env svc recorder d t).0
            ≡ returned (answer (requeue_in default_requeue_duration) none))
          × (kube_writes (reconcile_fetched env svc recorder d t).1
              ≡ update_status (Object.definition (applied_object env d id)) ∷ kube_writes t)
    unfolding reconcile_fetched handle_import
    reports_next d t free created live is_held plain unbound =
        let (e, writes) = applies d t free created unbound in
        simp (live, is_held, plain, e) (ground (arith, writes))

    -- Where apimachinery and the service meet their laws, no write to Kubernetes fails, Azure has
    -- nothing of that name and creates it: a new live definition without an import ID takes the
    -- finalizer in one reconcile, and in the next, whenever it comes, the ID and the Ready
    -- condition True, with an answer of an hour and no error.
    pub definition_becomes_ready :
        (t s : Trace)
        → ((s : Trace) → (svc.get held s).0 ≡ returned (ok ""))
        → ((s : Trace) → (svc.create_or_update held s).0 ≡ returned (ok id))
        → def.meta.is_deleting ≡ false
        → has_finalizer env def ≡ false
        → annotation def.meta annotation_import_id ≡ ""
        → def.status.policy_definition_id ≡ ""
        → (kube_writes (reconcile_fetched env svc recorder def t).1
            ≡ update (Object.definition (add_finalizer env def)) ∷ kube_writes t)
          × (kube_writes (reconcile_fetched env svc recorder held s).1
              ≡ update_status (Object.definition (applied_object env held id)) ∷ kube_writes s)
          × ((reconcile_fetched env svc recorder held s).0
              ≡ returned (answer (requeue_in default_requeue_duration) none))
          × ((made id).status.policy_definition_id ≡ id)
          × (env.find_status_condition (made id).status.conditions "Ready"
              ≡ some (ready condition_true (applied_reason held) (applied_message held) held.meta))
    unfolding land applied_object set_condition add_finalizer
    definition_becomes_ready t s free created live missing plain unbound =
        let (e, writes) =
          reports_next held s free created live
            (machinery.contains-add def.meta.finalizers finalizer) plain unbound in
        (
          holds_first t live missing,
          writes,
          e,
          refl,
          machinery.find-set_self def.status.conditions
              (ready condition_true (applied_reason held) (applied_message held) held.meta),
        )

  cleans_up :
      (t : Trace)
      → ((cleaned_up env svc recorder def (ok tt) t).0 ≡ returned none)
        × (kube_writes (cleaned_up env svc recorder def (ok tt) t).1
            ≡ update (Object.definition (remove_finalizer env def)) ∷ kube_writes t)
  unfolding ◌>>=◌ kube_update record_if_set
  cleans_up t = simp writable (ground arith)

  let_go :
      ((t : Trace) → (svc.delete def t).0 ≡ returned (ok tt))
      → (t : Trace) → has_finalizer env def ≡ true
      → ((handle_deletion env svc recorder def t).0 ≡ returned none)
        × (kube_writes (handle_deletion env svc recorder def t).1
            ≡ update (Object.definition (remove_finalizer env def)) ∷ kube_writes t)
  unfolding handle_deletion
  let_go deletable t is_held =
      simp writable
        (ground (arith, deletable t, lawful.kube-delete def t, cleans_up (svc.delete def t).1))

  gone_is_left :
      (d : AzurePolicyDefinition) (s : Trace)
      → d.meta.is_deleting ≡ true
      → has_finalizer env d ≡ false
      → reconcile_fetched env svc recorder d s ≡ (returned (answer no_requeue none), s)
  unfolding reconcile_fetched handle_deletion
  gone_is_left d s gone missing = ground arith

  -- Where apimachinery and the service meet their laws, no write to Kubernetes fails and Delete
  -- succeeds: one reconcile of a deleted definition with the finalizer writes it without the
  -- finalizer and returns no error, and a further reconcile of what is stored makes no call.
  pub deleted_definition_goes :
      ((t : Trace) → (svc.delete def t).0 ≡ returned (ok tt))
      → (t s : Trace) → def.meta.is_deleting ≡ true
      → has_finalizer env def ≡ true
      → (kube_writes (reconcile_fetched env svc recorder def t).1
          ≡ update (Object.definition (remove_finalizer env def)) ∷ kube_writes t)
        × ((reconcile_fetched env svc recorder def t).0 ≡ returned (answer no_requeue none))
        × (reconcile_fetched env svc recorder
              (land (update (Object.definition (remove_finalizer env def))) def)
              s
            ≡ (returned (answer no_requeue none), s))
  unfolding reconcile_fetched land remove_finalizer
  deleted_definition_goes deletable t s gone is_held =
      let (e, writes) = let_go deletable t is_held in
      (
        ground (arith, writes),
        simp (gone, e) refl,
        gone_is_left (land (update (Object.definition (remove_finalizer env def))) def) s gone
            (machinery.contains-remove def.meta.finalizers finalizer),
      )
