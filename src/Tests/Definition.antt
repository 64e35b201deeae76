-- ===== src/Tests/Definition.antt =====
-- The theorems about AzurePolicyDefinition objects at concrete inputs.
use policy_operator.Common.Drift.{Agrees}
use policy_operator.Definition.Service.{judge_import}
use policy_operator.Definition.InSync.{import_in_sync_iff}
use policy_operator.World.{reply}
use policy_operator.Base.{
  ◌↔◌, ne_of_differ, Bool, true, false, String, none, some, List, [], ◌∷◌, ◌≡◌, refl, arith,
}
use policy_operator.Base.Lists.{text_at}
use policy_operator.Value.{null}
use policy_operator.Failure.{ok, azure, error_text, errorf}
use policy_operator.Api.Meta.{
  annotation_import_id, annotation_import_mode, import_mode_only_once, no_requeue, requeue_in,
  default_requeue_duration, condition_false,
}
use policy_operator.Api.Definition.{AzurePolicyDefinition}
use policy_operator.Arm.{ArmDefinition, Resource}
use policy_operator.World.{Env, Trace, Object, delete_definition, update_status, kube_call}
use policy_operator.World.Go.{returned}
use policy_operator.World.Views.{arm_writes, kube_writes}
use policy_operator.Common.Reconcile.{answer, or_observe_only}
use policy_operator.Common.Naming.{place_of}
use policy_operator.Definition.Object.{finalizer, set_condition}
use policy_operator.Definition.Service.{
  delete, deleted_name, create_or_update, parse_definition_import_id,
}
use policy_operator.Definition.Wiring.{service, service-IsLawful}
use policy_operator.Definition.Controller.{reconcile_fetched}
use policy_operator.Base.Text.{equal_fold}
use policy_operator.Definition.Apply.{reconcile_definition}
use policy_operator.Definition.Observing.{observe_only_writes, unset_mode_deletes}
use policy_operator.Definition.Cleanup.{failed_deletion_keeps}
use policy_operator.Definition.Adoption.{rebinding_conflicts, conflicting}
use policy_operator.Definition.Settling.{adopt_once_settles}
use policy_operator.Definition.ImportIds.{group_id, parse_definition_import_id-group_id}
use policy_operator.Tests.Server.{server, holding, holding-IsMachinery, meta}

abbrev pub live_id : String
live_id = "/subscriptions/s/providers/Microsoft.Authorization/policyDefinitions/tags"

abbrev pub object : Bool → List (String × String) → String → AzurePolicyDefinition
object is_deleting annotations id = record {
  meta = meta is_deleting (finalizer ∷ []) annotations;
  spec = record {
    display_name = "Tags";
    description = "";
    policy_type = "Custom";
    mode = "All";
    version = "1.0.0";
    metadata = none;
    parameters = none;
    policy_rule = none;
    policy_rule_json = none;
    subscription_id = "";
    management_group_id = "";
  };
  status = record { policy_definition_id = id; applied_version = ""; conditions = [] };
}

abbrev props : ArmDefinition
props = record {
  display_name = some "Tags";
  description = none;
  policy_type = some "Custom";
  mode = some "Indexed";
  metadata = null;
  parameters = none;
  policy_rule = null;
}

abbrev pub live : Resource ArmDefinition
live = record { id = some live_id; properties = some props }

-- A server whose Delete fails.
abbrev refusing : Env
refusing = record server { arm_error = λ t. some "409 Conflict" }

abbrev pub observed : AzurePolicyDefinition
observed = object false ((annotation_import_id, live_id) ∷ []) ""

observe_only_writes_example :
    arm_writes (reconcile_fetched (holding live) (service (holding live)) true observed []).1 ≡ []
unfolding text_at or_observe_only
observe_only_writes_example =
    observe_only_writes (holding live) (service (holding live)) true
      (service-IsLawful (holding live)) observed [] refl (ne_of_differ refl) refl

-- The same object, bound by the import and then deleted.
abbrev pub dropped : AzurePolicyDefinition
dropped = object true ((annotation_import_id, live_id) ∷ []) live_id

unset_mode_deletes_example :
    arm_writes (reconcile_fetched server (service server) true dropped []).1
    ≡ delete_definition (place_of "") (deleted_name dropped) ∷ []
unfolding text_at
unset_mode_deletes_example =
    unset_mode_deletes server true dropped [] refl refl refl (ne_of_differ refl)

failed_deletion_keeps_example :
    ((reconcile_fetched refusing (service refusing) true dropped []).0
      ≡ returned (answer no_requeue (some (azure "409 Conflict"))))
    × (kube_writes (reconcile_fetched refusing (service refusing) true dropped []).1
        ≡ update_status (
            Object.definition (
              set_condition refusing condition_false "DeleteFailed"
                (error_text (azure "409 Conflict"))
                dropped))
          ∷ [])
unfolding text_at delete
failed_deletion_keeps_example =
    failed_deletion_keeps refusing (service refusing) true (service-IsLawful refusing) dropped []
      (azure "409 Conflict") refl refl refl (ne_of_differ refl) refl

abbrev shouted : String
shouted = "/SUBSCRIPTIONS/s/providers/Microsoft.Authorization/policyDefinitions/tags"

abbrev rebound : AzurePolicyDefinition
rebound = object false ((annotation_import_id, shouted) ∷ []) live_id

rebinding_conflicts_example : reconcile_fetched server (service server) true rebound [] ≡ (
  returned (
      answer no_requeue (
        some (
          errorf
            "import conflict: annotation import-id %q differs from already bound policyDefinitionId %q"
            (shouted ∷ live_id ∷ [])))),
  kube_call (update_status (Object.definition (conflicting server (service server) true rebound)))
      ∷ [],
)
unfolding text_at
rebinding_conflicts_example =
    rebinding_conflicts server (service server) true rebound [] refl refl (ne_of_differ refl)
      (ne_of_differ refl) (ne_of_differ refl)

abbrev settled : AzurePolicyDefinition
settled =
    object false
      ((annotation_import_id, live_id) ∷ (annotation_import_mode, import_mode_only_once) ∷ [])
      live_id

adopt_once_settles_example :
    (stored : AzurePolicyDefinition) × (kube_writes
        (reconcile_definition (holding live) (service (holding live)) true settled []).1
      ≡ update_status (Object.definition stored) ∷ [])
    × ((t' : Trace)
        → reconcile_fetched (holding live) (service (holding live)) true stored t'
          ≡ (returned (answer (requeue_in default_requeue_duration) none), t'))
unfolding text_at create_or_update
adopt_once_settles_example =
    adopt_once_settles (holding live) (holding-IsMachinery live) (service (holding live)) true
      (service-IsLawful (holding live)) settled [] refl refl (ne_of_differ refl) refl
      (ne_of_differ refl) refl

parse_definition_import_id-group_id_example :
    parse_definition_import_id (group_id "root" "tags") ≡ ok ("tags", "root")
unfolding equal_fold
parse_definition_import_id-group_id_example =
    parse_definition_import_id-group_id "root" "tags" (omega arith) (omega arith) refl

import_in_sync_iff_example :
    (judge_import live_id observed.spec (reply (record { id = none; properties = some props }))
      ≡ ok [])
    ↔ ((props.policy_type ≡ some "Custom")
        × Agrees props.display_name observed.spec.display_name
        × Agrees props.description observed.spec.description
        × Agrees props.mode observed.spec.mode)
import_in_sync_iff_example = import_in_sync_iff live_id observed.spec none props
