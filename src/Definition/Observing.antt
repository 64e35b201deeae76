-- ===== src/Definition/Observing.antt =====
-- What the AzurePolicyDefinition controller changes in Azure, mode by mode.
use policy_operator.Base.{Bool, true, false, ◌≡◌, ◌≢◌, ◌∷◌, arith, eq_iff}
use policy_operator.Api.Meta.{
  annotation, annotation_import_id, annotation_import_mode, import_mode_observe_only,
}
use policy_operator.Api.Definition.{AzurePolicyDefinition}
use policy_operator.World.{Env, Trace, delete_definition}
use policy_operator.World.Go.{Outcome, returned, panicked}
use policy_operator.World.Views.{arm_writes}
use policy_operator.Common.Reconcile.{or_observe_only, Step, done, next}
use policy_operator.Common.Naming.{place_of}
use policy_operator.Definition.Object.{DefinitionService, has_finalizer}
use policy_operator.Definition.Service.{deleted_name, delete}
use policy_operator.Definition.Wiring.{IsLawful, service}
use policy_operator.Definition.Deletion.{handle_deletion}
use policy_operator.Definition.Import.{handle_import}
use policy_operator.Definition.Controller.{reconcile_fetched}

-- the import did not stop the reconcile
abbrev pub goes_on : Outcome (Step AzurePolicyDefinition) → Bool
goes_on (returned (next def)) = true
goes_on (returned (done a)) = false
goes_on panicked = false

module _ (env : Env) (svc : DefinitionService) (recorder : Bool) (lawful : IsLawful svc) where
  pub writes-handle_import :
      (def : AzurePolicyDefinition) (t : Trace)
      → arm_writes (handle_import env svc recorder def t).1 ≡ arm_writes t
  unfolding handle_import
  writes-handle_import def t =
      ground (arith, lawful.writes-import (annotation def.meta annotation_import_id) def t)

  observe_only_stops :
      (def : AzurePolicyDefinition) (t : Trace)
      → annotation def.meta annotation_import_id ≢ ""
      → or_observe_only (annotation def.meta annotation_import_mode) ≡ import_mode_observe_only
      → goes_on (handle_import env svc recorder def t).0 ≡ false
  unfolding handle_import
  observe_only_stops def t bound mode = ground (
    arith,
    eq_iff (annotation def.meta annotation_import_id) "",
    eq_iff (or_observe_only (annotation def.meta annotation_import_mode)) import_mode_observe_only,
  )

  -- For a service whose lookups write nothing, reconciling a definition with an import ID that is
  -- not being deleted and whose mode is observe-only or unset makes no write to Azure.
  pub observe_only_writes :
      (def : AzurePolicyDefinition) (t : Trace)
      → def.meta.is_deleting ≡ false
      → annotation def.meta annotation_import_id ≢ ""
      → or_observe_only (annotation def.meta annotation_import_mode) ≡ import_mode_observe_only
      → arm_writes (reconcile_fetched env svc recorder def t).1 ≡ arm_writes t
  unfolding reconcile_fetched
  observe_only_writes def t live bound mode =
      ground (arith, writes-handle_import def t, observe_only_stops def t bound mode)

module _ (env : Env) (recorder : Bool) where
  -- Deleting a definition with the finalizer, a recorded ID and no import mode writes its deletion
  -- to Azure and nothing else.
  pub unset_mode_deletes :
      (def : AzurePolicyDefinition) (t : Trace)
      → def.meta.is_deleting ≡ true
      → has_finalizer env def ≡ true
      → annotation def.meta annotation_import_mode ≡ ""
      → def.status.policy_definition_id ≢ ""
      → arm_writes (reconcile_fetched env (service env) recorder def t).1
        ≡ delete_definition (place_of def.spec.management_group_id) (deleted_name def)
          ∷ arm_writes t
  unfolding reconcile_fetched handle_deletion delete
  unset_mode_deletes def t deleting final mode bound =
      simp (deleting, final, mode) (ground (arith, eq_iff (def.status.policy_definition_id) ""))
