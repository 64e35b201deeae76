-- ===== src/Definition/Once.antt =====
-- A reconcile of an AzurePolicyDefinition makes at most one write to Kubernetes.
use policy_operator.Base.{suc, ◌≤◌, Bool, true, false, String, List, ◌≡◌, arith}
use policy_operator.Failure.{Result, ok, err}
use policy_operator.Api.Meta.{annotation, annotation_import_id, annotation_import_mode}
use policy_operator.Api.Definition.{AzurePolicyDefinition}
use policy_operator.World.{Env, Trace}
use policy_operator.Definition.Wiring.{IsLawful}
use policy_operator.World.Try
use policy_operator.World.Go.{
  ◌>>=◌, pure, kube_update_status, record_event, record_if_set, returned,
}
use policy_operator.World.Go.Once.{OneWrite, written, once_later, once_by}
use policy_operator.World.Go.Quiet.{IsQuiet, assoc}
use policy_operator.Common.Reconcile.{or_observe_only, Step, done, next}
use policy_operator.Definition.Object.{
  DefinitionService, set_condition, set_imported_condition, set_drift_condition,
}
use policy_operator.Definition.Deletion.{handle_deletion}
use policy_operator.Definition.Apply.{reconcile_definition, existing, write_unless, applied}
use policy_operator.Definition.Import.{handle_import, import_done}
use policy_operator.Definition.Controller.{reconcile_fetched, after_import}

module _ (env : Env) (svc : DefinitionService) (recorder : Bool) (lawful : IsLawful svc) where
  deletion-OneWrite :
      (def : AzurePolicyDefinition) (t : Trace) → OneWrite (handle_deletion env svc recorder def) t
  unfolding handle_deletion
  deletion-OneWrite def t = ground (arith, lawful.kube-delete def t)

  applied-OneWrite :
      (def : AzurePolicyDefinition) (was_created : Bool) (r : Result String) (t : Trace)
      → OneWrite (applied env svc recorder def was_created r) t
  unfolding ◌>>=◌ kube_update_status record_if_set set_condition pure
  applied-OneWrite def was_created (ok id) t = ground arith
  applied-OneWrite def was_created (err e) t = ground arith

  create-OneWrite :
      (def : AzurePolicyDefinition) (was_created : Bool) (t : Trace)
      → OneWrite (svc.create_or_update def >>= applied env svc recorder def was_created) t
  create-OneWrite def was_created t =
      once_later (svc.create_or_update def) (applied env svc recorder def was_created) t
        (lawful.kube-create_or_update def t)
        (λ r e. applied-OneWrite def was_created r (svc.create_or_update def t).1)

  after_get-OneWrite :
      (def : AzurePolicyDefinition) (r : Result String) (t : Trace)
      → OneWrite (existing env svc recorder def r >>= write_unless env svc recorder def) t
  unfolding ◌>>=◌ kube_update_status record_if_set set_condition Try.pure
  after_get-OneWrite def r t = ground (arith, create-OneWrite def true t)

  reconcile_definition-OneWrite :
      (def : AzurePolicyDefinition) (t : Trace)
      → OneWrite (reconcile_definition env svc recorder def) t
  unfolding reconcile_definition
  reconcile_definition-OneWrite def t = ground (
    arith,
    create-OneWrite def false t,
    assoc (svc.get def) (existing env svc recorder def) (write_unless env svc recorder def) t,
    once_later (svc.get def)
        (λ r. existing env svc recorder def r >>= write_unless env svc recorder def) t
        (lawful.kube-get def t) (λ r e. after_get-OneWrite def r (svc.get def t).1),
  )

  import_done-OneWrite :
      (def : AzurePolicyDefinition) (id mode : String) (r : Result (List String)) (t : Trace)
      → OneWrite (import_done env svc recorder def id mode r) t
  unfolding ◌>>=◌ kube_update_status record_event record_if_set set_condition set_imported_condition
      set_drift_condition pure
  import_done-OneWrite def id mode (ok drift) t = ground arith
  import_done-OneWrite def id mode (err e) t = ground arith

  handle_import-OneWrite :
      (def : AzurePolicyDefinition) (t : Trace) → OneWrite (handle_import env svc recorder def) t
  unfolding handle_import
  handle_import-OneWrite def t =
      let id = annotation def.meta annotation_import_id in
      let mode = or_observe_only (annotation def.meta annotation_import_mode) in
      ground (
        arith,
        once_later (svc.import id def) (import_done env svc recorder def id mode) t
            (lawful.kube-import id def t)
            (λ r e. import_done-OneWrite def id mode r (svc.import id def t).1),
      )

  adopted_quietly :
      (def d : AzurePolicyDefinition) (t : Trace)
      → (handle_import env svc recorder def t).0 ≡ returned (next d)
      → IsQuiet (handle_import env svc recorder def) t
  unfolding handle_import
  adopted_quietly def d t e =
      ground (arith, lawful.kube-import (annotation def.meta annotation_import_id) def t)

  after_import-OneWrite :
      (def : AzurePolicyDefinition) (t : Trace) (step : Step AzurePolicyDefinition)
      → (handle_import env svc recorder def t).0 ≡ returned step
      → written (after_import env svc recorder step (handle_import env svc recorder def t).1).1
        ≤ suc (written t)
  unfolding pure ◌>>=◌
  after_import-OneWrite def t (done a) e = handle_import-OneWrite def t
  after_import-OneWrite def t (next d) e = ground (
    arith,
    adopted_quietly def d t e,
    reconcile_definition-OneWrite d (handle_import env svc recorder def t).1,
  )

  -- For a service that writes nothing to Kubernetes, a reconcile of a definition makes at most one
  -- write to Kubernetes.
  pub definition_writes_once :
      (def : AzurePolicyDefinition) (t : Trace)
      → written (reconcile_fetched env svc recorder def t).1 ≤ suc (written t)
  unfolding reconcile_fetched
  definition_writes_once def t = ground (
    arith,
    deletion-OneWrite def t,
    once_by (handle_import env svc recorder def) (after_import env svc recorder) t
        (handle_import-OneWrite def t) (after_import-OneWrite def t),
  )
