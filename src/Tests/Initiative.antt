-- ===== src/Tests/Initiative.antt =====
-- The theorems about AzurePolicyInitiative objects at concrete inputs.
use mathlib.Core.List.{Memᴰ}
use policy_operator.Base.{
  Bool, true, false, String, Option, none, some, List, [], ◌∷◌, ◌≡◌, ◌↔◌, refl, ne_of_differ,
}
use policy_operator.Base.Lists.{text_at, lookup}
use policy_operator.Value.{null, object, end, field, text, decodes}
use policy_operator.Failure.{ok}
use policy_operator.Api.Meta.{annotation_import_id, NamespacedName}
use policy_operator.Api.Initiative.{
  AzurePolicyInitiative, AzurePolicyInitiativeSpec, PolicyDefinitionReference, InitiativeParameter,
}
use policy_operator.Arm.{ArmSetDefinition, ArmDefinitionReference}
use policy_operator.World.{reply}
use policy_operator.World.Views.{arm_writes}
use policy_operator.Common.Drift.{Agrees}
use policy_operator.Common.Reconcile.{or_observe_only}
use policy_operator.Initiative.Object.{finalizer}
use policy_operator.Initiative.Payload.{
  build_policy_definition_refs, has_policy_definition_drift, build_parameters,
}
use policy_operator.Initiative.Service.{judge_import}
use policy_operator.Initiative.Resolve.{requests_for}
use policy_operator.Initiative.Wiring.{service, service-IsLawful}
use policy_operator.Initiative.Controller.{reconcile_fetched}
use policy_operator.Initiative.Writes.{initiative_observe_only_writes}
use policy_operator.Initiative.Agreement.{
  built_references_agree, lookup-build_parameters, live_ids, wanted_ids, written, last_named,
}
use policy_operator.Initiative.InSync.{initiative_in_sync_iff}
use policy_operator.Initiative.Resolving.{requests_for_iff, Requested}
use policy_operator.Tests.Server.{server, meta}

abbrev live_id : String
live_id = "/subscriptions/s/providers/Microsoft.Authorization/policySetDefinitions/baseline"

abbrev references : List PolicyDefinitionReference
references =
    record { policy_definition_id = "/d/one"; policy_definition_ref = ""; parameters = none }
    ∷ record {
      policy_definition_id = "/d/two";
      policy_definition_ref = "";
      parameters = some (decodes (object (field "effect" (text "Deny") end)));
    }
    ∷ []

abbrev parameters : List InitiativeParameter
parameters =
    record {
      name = "effect";
      type = "String";
      default_value = none;
      allowed_values = [];
      strong_type = "";
    }
    ∷ record {
      name = "effect";
      type = "Array";
      default_value = none;
      allowed_values = [];
      strong_type = "";
    }
    ∷ []

abbrev spec : AzurePolicyInitiativeSpec
spec = record {
  display_name = "Baseline";
  description = "";
  version = "1.0.0";
  metadata = none;
  parameters = parameters;
  policy_definitions = references;
  subscription_id = "";
  management_group_id = "";
}

abbrev initiative : Bool → List String → String → AzurePolicyInitiative
initiative is_deleting finalizers id = record {
  meta = meta is_deleting finalizers ((annotation_import_id, live_id) ∷ []);
  spec = spec;
  status = record { initiative_id = id; applied_version = ""; conditions = [] };
}

abbrev observed : AzurePolicyInitiative
observed = initiative false (finalizer ∷ []) ""

abbrev pub dropped : AzurePolicyInitiative
dropped = initiative true (finalizer ∷ []) live_id

initiative_observe_only_writes_example :
    arm_writes (reconcile_fetched server (service server) true "platform" observed []).1 ≡ []
unfolding text_at or_observe_only
initiative_observe_only_writes_example =
    initiative_observe_only_writes server (service server) true (service-IsLawful server) observed
      "platform" [] refl (ne_of_differ refl) refl

built_references_agree_example :
    (built : List (Option ArmDefinitionReference)) × (build_policy_definition_refs references
        ("/d/one" ∷ "/d/two" ∷ [])
      ≡ some built)
    × (has_policy_definition_drift built ("/d/one" ∷ "/d/two" ∷ []) ≡ false)
built_references_agree_example = built_references_agree references ("/d/one" ∷ "/d/two" ∷ []) refl

lookup-build_parameters_example :
    lookup "effect" (build_parameters parameters) ≡ written (last_named "effect" parameters)
lookup-build_parameters_example = lookup-build_parameters "effect" parameters

abbrev key : NamespacedName
key = record { namespace = "platform"; name = "tagged" }

requests_for_iff_example :
    Memᴰ key (requests_for "tags" (observed ∷ [])) ↔ Requested "tags" key (observed ∷ [])
requests_for_iff_example = requests_for_iff "tags" key (observed ∷ [])

abbrev props : ArmSetDefinition
props = record {
  display_name = some "Baseline";
  description = none;
  policy_type = some "Custom";
  metadata = null;
  parameters = none;
  policy_definitions = none ∷ [];
}

initiative_in_sync_iff_example :
    (judge_import live_id spec [] (reply (record { id = none; properties = some props })) ≡ ok [])
    ↔ ((props.policy_type ≡ some "Custom")
        × Agrees props.display_name spec.display_name
        × Agrees props.description spec.description
        × (live_ids (none ∷ []) ≡ wanted_ids []))
initiative_in_sync_iff_example = initiative_in_sync_iff live_id spec [] none props
