-- ===== src/Tests/DefinitionRuns.antt =====
-- More theorems about AzurePolicyDefinition objects at the inputs of Tests/Lifecycle.
use policy_operator.Base.{
  true, false, ne_of_differ, none, some, [], ◌∷◌, ◌≡◌, ◌≤◌, ◌↔◌, suc, inl, refl, arith,
}
use policy_operator.Base.Lists.{text_at}
use policy_operator.Base.Text.{equal_fold}
use policy_operator.Api.Meta.{condition_true, no_requeue, requeue_in, default_requeue_duration}
use policy_operator.World.{Object, update, update_status}
use policy_operator.World.Go.{returned, panicked}
use policy_operator.World.Go.Returns.{returns}
use policy_operator.World.Go.Once.{written}
use policy_operator.World.Views.{kube_writes}
use policy_operator.Common.Reconcile.{answer, ready, or_observe_only}
use policy_operator.Definition.Object.{add_finalizer, remove_finalizer}
use policy_operator.Definition.Apply.{applied_object, applied_reason, applied_message}
use policy_operator.Definition.Import.{handle_import}
use policy_operator.Definition.Controller.{reconcile_fetched}
use policy_operator.Definition.Service.{get, create_or_update, delete, import}
use policy_operator.Definition.Wiring.{service, service-IsLawful}
use policy_operator.Definition.Lifecycle.{land}
use policy_operator.Definition.Once.{definition_writes_once}
use policy_operator.Definition.Total.{definition_reconcile_never_panics}
use policy_operator.Definition.Recording.{import_panics_iff}
use policy_operator.Definition.Progress.{definition_becomes_ready, deleted_definition_goes}
use policy_operator.Tests.Server.{answering-IsMachinery, holding}
use policy_operator.Tests.Definition.{live, live_id, dropped, observed}
use policy_operator.Tests.Lifecycle.{azure, answered, svc, fresh, held, bound}

definition_writes_once_example :
    written (reconcile_fetched azure svc true held []).1 ≤ suc (written [])
definition_writes_once_example =
    definition_writes_once azure svc true (service-IsLawful azure) held []

definition_becomes_ready_example :
    (kube_writes (reconcile_fetched azure svc true fresh []).1
      ≡ update (Object.definition (add_finalizer azure fresh)) ∷ [])
    × (kube_writes (reconcile_fetched azure svc true held []).1
        ≡ update_status (Object.definition (applied_object azure held live_id)) ∷ [])
    × ((reconcile_fetched azure svc true held []).0
        ≡ returned (answer (requeue_in default_requeue_duration) none))
    × (bound.status.policy_definition_id ≡ live_id)
    × (azure.find_status_condition bound.status.conditions "Ready"
        ≡ some (ready condition_true (applied_reason held) (applied_message held) held.meta))
unfolding get create_or_update land add_finalizer text_at
definition_becomes_ready_example =
    definition_becomes_ready azure (answering-IsMachinery answered) svc (service-IsLawful azure)
      true (λ t. refl) fresh live_id [] [] (λ s. refl) (λ s. refl) refl refl refl refl

deleted_definition_goes_example :
    (kube_writes (reconcile_fetched azure svc true dropped []).1
      ≡ update (Object.definition (remove_finalizer azure dropped)) ∷ [])
    × ((reconcile_fetched azure svc true dropped []).0 ≡ returned (answer no_requeue none))
    × (reconcile_fetched azure svc true
          (land (update (Object.definition (remove_finalizer azure dropped))) dropped)
          []
        ≡ (returned (answer no_requeue none), []))
unfolding delete
deleted_definition_goes_example =
    deleted_definition_goes azure (answering-IsMachinery answered) svc (service-IsLawful azure) true
      (λ t. refl) dropped (λ t. refl) [] [] refl refl

definition_reconcile_never_panics_example :
    returns (reconcile_fetched (holding live) (service (holding live)) true observed []).0 ≡ true
definition_reconcile_never_panics_example =
    definition_reconcile_never_panics (holding live) (λ t. refl) observed []
      (inl (λ e. ground arith))

import_panics_iff_example :
    ((handle_import (holding live) (service (holding live)) false observed []).0 ≡ panicked)
    ↔ (false ≡ false)
unfolding import text_at or_observe_only equal_fold
import_panics_iff_example =
    import_panics_iff (holding live) (service (holding live)) false observed [] ("mode" ∷ [])
      (ne_of_differ refl) refl refl refl
