-- ===== src/Tests/Assignment.antt =====
-- The theorems about AzurePolicyAssignment objects at concrete inputs.
use policy_operator.Base.{
  Bool, true, false, String, none, some, List, [], ◌∷◌, ◌≡◌, ◌↔◌, refl, ne_of_differ,
}
use policy_operator.Base.Lists.{text_at, contains}
use policy_operator.Base.Text.{last_segment}
use policy_operator.Api.Meta.{
  annotation_import_id, annotation_import_mode, import_mode_observe_only,
}
use policy_operator.Api.Assignment.{
  AzurePolicyAssignment, AssignmentExemptionSpec, AssignmentExemptionStatus, AssignmentIdentity,
  IdentityPermission,
}
use policy_operator.World.{Env, ArmCall, reply, delete_assignment}
use policy_operator.World.Views.{arm_writes, arm_calls}
use policy_operator.Common.Reconcile.{or_observe_only}
use policy_operator.Assignment.Object.{finalizer}
use policy_operator.Assignment.Drift.{scopes_differ, present}
use policy_operator.Assignment.Drift.Sets.{scopes_agree_iff}
use policy_operator.Assignment.Roles.{create_role_assignments, delete_role_assignments}
use policy_operator.Assignment.Roles.Undone.{roles_undone, onto, undone, deletes}
use policy_operator.Assignment.Exemptions.{delete_exemptions, reconcile_exemptions, names}
use policy_operator.Assignment.Exemptions.Recorded.{exemptions_recorded, recorded_names, deletions}
use policy_operator.Exemption.Service
use policy_operator.Assignment.Service.{delete}
use policy_operator.Assignment.Service.Removal.{assignment_deleted_last}
use policy_operator.Assignment.Wiring.{service, service-IsLawful}
use policy_operator.Assignment.Controller.{reconcile_fetched}
use policy_operator.Assignment.Writes.{assignment_observe_only_writes}
use policy_operator.Assignment.Cleanup.{annotated, deletion_ignores_mode}
use policy_operator.Tests.Server.{server, meta}

abbrev pub live_id : String
live_id = "/subscriptions/s/providers/Microsoft.Authorization/policyAssignments/tagged"

abbrev reader : IdentityPermission
reader = record { role = ""; role_definition_id = "/roles/reader"; scope = "/subscriptions/s" }

abbrev identity : AssignmentIdentity
identity = record {
  type = "SystemAssigned";
  user_assigned_identity_id = "";
  location = "westeurope";
  permissions = reader ∷ [];
}

abbrev pub waived : AssignmentExemptionSpec
waived = record {
  display_name = "Waiver";
  description = "";
  scope = "/subscriptions/s";
  exemption_category = "Waiver";
  expires_on = "";
}

abbrev recorded : AssignmentExemptionStatus
recorded = record { display_name = "Old"; exemption_id = "/e/u1"; scope = "/subscriptions/s" }

abbrev pub assignment : Bool → List String → List (String × String) → String → AzurePolicyAssignment
assignment is_deleting finalizers annotations id = record {
  meta = meta is_deleting finalizers annotations;
  spec = record {
    display_name = "Tags";
    description = "";
    policy_definition_ref = "";
    policy_definition_id = "/d/tags";
    scope = "/subscriptions/s";
    not_scopes = [];
    enforcement_mode = "Default";
    parameters = none;
    metadata = none;
    identity = some identity;
    non_compliance_messages = none;
    resource_selectors = [];
    exemptions = waived ∷ [];
  };
  status = record {
    assignment_id = id;
    assigned_location = "";
    mi_principal_id = "";
    exemptions = recorded ∷ [];
    conditions = [];
  };
}

abbrev pub fresh : AzurePolicyAssignment
fresh = assignment false [] [] ""

abbrev pub observed : AzurePolicyAssignment
observed = assignment false (finalizer ∷ []) ((annotation_import_id, live_id) ∷ []) ""

abbrev pub dropped : AzurePolicyAssignment
dropped = assignment true (finalizer ∷ []) [] live_id

-- A server that holds an assignment and creates exemptions.
abbrev pub holding : Env
holding = record server {
  assignment_reply = λ t.
      reply (record { id = some live_id; location = none; identity = none; properties = none });
  exemption_reply = λ t. reply (record { id = some "/e/u2"; properties = none });
}

assignment_observe_only_writes_example :
    arm_writes (reconcile_fetched holding (service holding) true "platform" observed []).1 ≡ []
unfolding text_at or_observe_only
assignment_observe_only_writes_example =
    assignment_observe_only_writes holding (service holding) true (service-IsLawful holding)
      observed "platform" [] refl (ne_of_differ refl) refl

deletion_ignores_mode_example :
    arm_calls
      (reconcile_fetched server
        (service server)
        true
        "platform"
        (annotated ((annotation_import_mode, import_mode_observe_only) ∷ []) dropped)
        []).1
    ≡ arm_calls (reconcile_fetched server (service server) true "platform" dropped []).1
deletion_ignores_mode_example =
    deletion_ignores_mode server (service server) true dropped
      ((annotation_import_mode, import_mode_observe_only) ∷ []) "platform" [] refl

scopes_agree_iff_example :
    (scopes_differ (some "/a" ∷ none ∷ some "/b" ∷ []) ("/b" ∷ "/a" ∷ "/b" ∷ []) ≡ false) ↔ (
      (s : String)
      → contains (present (some "/a" ∷ none ∷ some "/b" ∷ [])) s
        ≡ contains ("/b" ∷ "/a" ∷ "/b" ∷ []) s)
scopes_agree_iff_example =
    scopes_agree_iff (some "/a" ∷ none ∷ some "/b" ∷ []) ("/b" ∷ "/a" ∷ "/b" ∷ [])

roles_undone_example :
    (calls : List ArmCall) × (arm_writes
        (create_role_assignments server live_id "p" (reader ∷ []) []).1
      ≡ onto calls [])
    × (arm_writes (delete_role_assignments server live_id (reader ∷ []) []).1
        ≡ onto (undone server live_id calls) [])
unfolding create_role_assignments delete_role_assignments
roles_undone_example =
    roles_undone server live_id "p" (reader ∷ []) [] [] (ne_of_differ refl, tt) refl refl

exemptions_recorded_example :
    recorded_names
      (record { display_name = "Waiver"; exemption_id = "/e/u2"; scope = "/subscriptions/s" } ∷ [])
    ≡ names (waived ∷ [])
unfolding reconcile_exemptions Service.create_or_update Service.delete
exemptions_recorded_example =
    exemptions_recorded holding live_id (waived ∷ []) (recorded ∷ []) []
      (record { display_name = "Waiver"; exemption_id = "/e/u2"; scope = "/subscriptions/s" } ∷ [])
      refl

assignment_deleted_last_example :
    arm_writes (delete server "/subscriptions/s" live_id (recorded ∷ []) (some identity) []).1
    ≡ delete_assignment "/subscriptions/s" (last_segment live_id)
      ∷ onto (deletes server live_id (reader ∷ [])) (onto (deletions (recorded ∷ [])) [])
unfolding delete delete_exemptions Service.delete delete_role_assignments
assignment_deleted_last_example =
    assignment_deleted_last server "/subscriptions/s" live_id (recorded ∷ []) identity []
      (ne_of_differ refl, tt) refl
