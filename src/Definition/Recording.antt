-- ===== src/Definition/Recording.antt =====
-- The one event of the definition controller that is recorded without a test of the recorder.
use policy_operator.Base.{Bool, false, String, List, ◌≡◌, ◌↔◌, ◌==◌, ◌≢◌, arith, eq_iff}
use policy_operator.Failure.{ok}
use policy_operator.Api.Meta.{
  annotation, annotation_import_id, annotation_import_mode, import_mode_only_once,
}
use policy_operator.Api.Definition.{AzurePolicyDefinition}
use policy_operator.World.{Env, Trace}
use policy_operator.World.Go.{returned, panicked, record_event}
use policy_operator.Common.Reconcile.{or_observe_only}
use policy_operator.Definition.Object.{DefinitionService}
use policy_operator.Definition.Import.{handle_import}

module _ (env : Env) (svc : DefinitionService) (recorder : Bool) where
  -- For a definition with an import ID, no recorded ID, and a mode other than adopt-once, whose
  -- import succeeds, handleImport panics exactly when no recorder is set.
  pub import_panics_iff :
      (def : AzurePolicyDefinition) (t : Trace) (drift : List String)
      → annotation def.meta annotation_import_id ≢ ""
      → def.status.policy_definition_id ≡ ""
      → (or_observe_only (annotation def.meta annotation_import_mode) == import_mode_only_once)
        ≡ false
      → (svc.import (annotation def.meta annotation_import_id) def t).0 ≡ returned (ok drift)
      → ((handle_import env svc recorder def t).0 ≡ panicked) ↔ (recorder ≡ false)
  unfolding handle_import record_event
  import_panics_iff def t drift given unbound mode imported = ground (
    arith,
    eq_iff (annotation def.meta annotation_import_id) "",
    eq_iff def.status.policy_definition_id "",
    imported,
  )
