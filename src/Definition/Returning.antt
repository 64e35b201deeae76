-- ===== src/Definition/Returning.antt =====
-- A reconcile of an AzurePolicyDefinition does not panic.
use policy_operator.Base.{Bool, true, false, String, List, ◌≡◌, ◌∙◌, refl, arith}
use policy_operator.Failure.{Result, ok, err}
use policy_operator.Api.Meta.{annotation, annotation_import_id, annotation_import_mode}
use policy_operator.Api.Definition.{AzurePolicyDefinition, AzurePolicyDefinitionSpec}
use policy_operator.World.{Env, Trace}
use policy_operator.World.Try
use policy_operator.World.Go.{
  ◌>>=◌, pure, kube_update_status, record_event, record_if_set, returned,
}
use policy_operator.World.Go.Returns.{returns, chain_returns}
use policy_operator.World.Go.Quiet.{assoc}
use policy_operator.Common.Reconcile.{or_observe_only, Step, done, next}
use policy_operator.Definition.Object.{
  DefinitionService, set_condition, set_imported_condition, set_drift_condition,
}
use policy_operator.Definition.Deletion.{handle_deletion}
use policy_operator.Definition.Apply.{reconcile_definition, existing, write_unless, applied}
use policy_operator.Definition.Import.{handle_import, import_done}
use policy_operator.Definition.Controller.{reconcile_fetched, after_import}

-- The operations of the service return for objects with that spec.
pub record IsTotal (svc : DefinitionService) (spec : AzurePolicyDefinitionSpec) : Type 0 where
  pub get : (def : AzurePolicyDefinition) (t : Trace) → returns (svc.get def t).0 ≡ true
  pub create_or_update :
      (def : AzurePolicyDefinition) (t : Trace)
      → def.spec ≡ spec
      → returns (svc.create_or_update def t).0 ≡ true
  pub delete : (def : AzurePolicyDefinition) (t : Trace) → returns (svc.delete def t).0 ≡ true
  pub import :
      (id : String) (def : AzurePolicyDefinition) (t : Trace)
      → returns (svc.import id def t).0 ≡ true

module _ (env : Env) (svc : DefinitionService) (spec : AzurePolicyDefinitionSpec)
    (total : IsTotal svc spec) where
  handle_deletion-returns :
      (def : AzurePolicyDefinition) (t : Trace)
      → returns (handle_deletion env svc true def t).0 ≡ true
  unfolding handle_deletion
  handle_deletion-returns def t = ground (arith, total.delete def t)

  applied-returns :
      (def : AzurePolicyDefinition) (was_created : Bool) (r : Result String) (t : Trace)
      → returns (applied env svc true def was_created r t).0 ≡ true
  unfolding ◌>>=◌ kube_update_status record_if_set set_condition pure
  applied-returns def was_created (ok id) t = ground arith
  applied-returns def was_created (err e) t = ground arith

  written_returns :
      (def : AzurePolicyDefinition) (was_created : Bool) (t : Trace)
      → def.spec ≡ spec
      → returns ((svc.create_or_update def >>= applied env svc true def was_created) t).0 ≡ true
  written_returns def was_created t same =
      chain_returns (svc.create_or_update def) (applied env svc true def was_created) t
        (total.create_or_update def t same) (λ r e s. applied-returns def was_created r s)

  after_get_returns :
      (def : AzurePolicyDefinition) (r : Result String) (t : Trace)
      → def.spec ≡ spec
      → returns ((existing env svc true def r >>= write_unless env svc true def) t).0 ≡ true
  unfolding ◌>>=◌ kube_update_status record_if_set set_condition Try.pure
  after_get_returns def r t same = ground (arith, written_returns def true t same)

  reconcile_definition-returns :
      (def : AzurePolicyDefinition) (t : Trace)
      → def.spec ≡ spec
      → returns (reconcile_definition env svc true def t).0 ≡ true
  unfolding reconcile_definition
  reconcile_definition-returns def t same = ground (
    arith,
    written_returns def false t same,
    assoc (svc.get def) (existing env svc true def) (write_unless env svc true def) t,
    chain_returns (svc.get def) (λ r. existing env svc true def r >>= write_unless env svc true def)
        t (total.get def t) (λ r e s. after_get_returns def r s same),
  )

  import_done-returns :
      (def : AzurePolicyDefinition) (id mode : String) (r : Result (List String)) (t : Trace)
      → returns (import_done env svc true def id mode r t).0 ≡ true
  unfolding ◌>>=◌ kube_update_status record_event record_if_set set_condition set_imported_condition
      set_drift_condition pure
  import_done-returns def id mode (ok drift) t = ground arith
  import_done-returns def id mode (err e) t = ground arith

  handle_import-returns :
      (def : AzurePolicyDefinition) (t : Trace)
      → returns (handle_import env svc true def t).0 ≡ true
  unfolding handle_import
  handle_import-returns def t =
      let id = annotation def.meta annotation_import_id in
      let mode = or_observe_only (annotation def.meta annotation_import_mode) in
      ground (
        arith,
        chain_returns (svc.import id def) (import_done env svc true def id mode) t
            (total.import id def t) (λ r e s. import_done-returns def id mode r s),
      )

  same_spec :
      (def d : AzurePolicyDefinition) (t : Trace)
      → (handle_import env svc true def t).0 ≡ returned (next d)
      → d.spec ≡ def.spec
  unfolding handle_import
  same_spec def d t e = ground (arith)

  after_import-returns :
      (def : AzurePolicyDefinition) (t : Trace) (step : Step AzurePolicyDefinition)
      → def.spec ≡ spec
      → (handle_import env svc true def t).0 ≡ returned step
      → (s : Trace) → returns (after_import env svc true step s).0 ≡ true
  unfolding pure
  after_import-returns def t (done a) same e s = refl
  after_import-returns def t (next d) same e s =
      chain_returns (reconcile_definition env svc true d) _ s
        (reconcile_definition-returns d s (same_spec def d t e ∙ same)) (λ failure f s'. refl)

  -- With a recorder, a reconcile of a definition returns if the operations of the service return
  -- for its spec.
  pub definition_reconcile_returns :
      (def : AzurePolicyDefinition) (t : Trace)
      → def.spec ≡ spec
      → returns (reconcile_fetched env svc true def t).0 ≡ true
  unfolding reconcile_fetched
  definition_reconcile_returns def t same = ground (
    arith,
    handle_deletion-returns def t,
    chain_returns (handle_import env svc true def) (after_import env svc true) t
        (handle_import-returns def t) (λ step e s. after_import-returns def t step same e s),
  )
