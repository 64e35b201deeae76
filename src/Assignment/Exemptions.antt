-- ===== src/Assignment/Exemptions.antt =====
-- internal/service/policyassignment/assingment.go: the inline exemptions of an assignment.
pub mod Recorded
use policy_operator.Base.{false, String, Option, none, some, List, [], ◌∷◌, if◌then◌else◌}
use policy_operator.Base.Lists.{Dict, lookup, insert, contains}
use policy_operator.Api.Meta.{ObjectMeta}
use policy_operator.Api.Assignment.{AssignmentExemptionSpec, AssignmentExemptionStatus}
use policy_operator.Api.Exemption.{AzurePolicyExemption}
use policy_operator.World.{Env}
use policy_operator.World.Try.{Try, pure, ◌>>=◌, ◌>>◌}
use policy_operator.Exemption.Service
use policy_operator.Assignment.Roles.{wrap}

-- Exemptions that are known by their display names; a later one replaces an earlier.
unfoldable pub known_from :
    Dict AssignmentExemptionStatus → List AssignmentExemptionStatus → Dict AssignmentExemptionStatus
unfolding insert
known_from m [] = m
known_from m (e ∷ es) = known_from (insert e.display_name e m) es

abbrev pub known : List AssignmentExemptionStatus → Dict AssignmentExemptionStatus
known = known_from []

-- The ID of the known exemption of that name, or "".
abbrev pub known_id : Option AssignmentExemptionStatus → String
known_id none = ""
known_id (some e) = e.exemption_id

abbrev blank : ObjectMeta
blank = record {
  name = "";
  namespace = "";
  generation = 0;
  is_deleting = false;
  finalizers = [];
  annotations = [];
}

-- The exemption object that stands for an inline one.
unfoldable pub synthetic :
    String → Dict AssignmentExemptionStatus → AssignmentExemptionSpec → AzurePolicyExemption
unfolding lookup
synthetic assignment_id existing spec = record {
  meta = blank;
  spec = record {
    display_name = spec.display_name;
    description = spec.description;
    policy_assignment_id = assignment_id;
    policy_assignment_ref = "";
    scope = spec.scope;
    exemption_category = spec.exemption_category;
    expires_on = spec.expires_on;
    resource_selectors = [];
  };
  status = record { exemption_id = known_id (lookup spec.display_name existing); conditions = [] };
}

abbrev pub names : List AssignmentExemptionSpec → List String
names [] = []
names (spec ∷ specs) = spec.display_name ∷ names specs

module _ (env : Env) where
  unfoldable pub create_exemptions :
      String
      → Dict AssignmentExemptionStatus
      → List AssignmentExemptionSpec
      → Try (List AssignmentExemptionStatus)
  unfolding ◌>>=◌ pure synthetic
  create_exemptions assignment_id existing [] = pure []
  create_exemptions assignment_id existing (spec ∷ specs) = do
    id ←
        wrap "reconciling exemption %q: %w" (spec.display_name ∷ [])
          (Service.create_or_update env (synthetic assignment_id existing spec))
    rest ← create_exemptions assignment_id existing specs
    pure (record { display_name = spec.display_name; exemption_id = id; scope = spec.scope } ∷ rest)

  -- Delete what the spec no longer names.
  unfoldable pub delete_removed : List String → List AssignmentExemptionStatus → Try (Unit {0})
  unfolding ◌>>=◌ pure
  delete_removed desired [] = pure tt
  delete_removed desired (e ∷ es) =
      let rest = delete_removed desired es in
      if contains desired e.display_name then rest else (do
        wrap "deleting exemption %q: %w" (e.display_name ∷ [])
            (Service.delete env e.scope e.exemption_id)
        rest)

  unfoldable pub reconcile_exemptions :
      String
      → List AssignmentExemptionSpec
      → List AssignmentExemptionStatus
      → Try (List AssignmentExemptionStatus)
  unfolding ◌>>=◌ pure create_exemptions delete_removed known_from
  reconcile_exemptions assignment_id specs recorded = do
    results ← create_exemptions assignment_id (known recorded) specs
    delete_removed (names specs) recorded
    pure results

  -- Every inline exemption goes before its assignment does.
  unfoldable pub delete_exemptions : List AssignmentExemptionStatus → Try (Unit {0})
  unfolding ◌>>=◌ pure
  delete_exemptions [] = pure tt
  delete_exemptions (e ∷ es) = do
    wrap "deleting exemption %q: %w" (e.display_name ∷ [])
        (Service.delete env e.scope e.exemption_id)
    delete_exemptions es
