-- ===== src/Tests/Waking.antt =====
-- A definition that is ready wakes an assignment that refers to it, at a concrete input.
use mathlib.Core.List.{Memᴰ}
use mathlib.Core.List.Memᴰ.{head}
use policy_operator.Base.{List, [], ◌∷◌, ◌≡◌, refl, ne_of_differ, ◌==◌, ◌&&◌, if◌then◌else◌}
use policy_operator.Api.Meta.{NamespacedName}
use policy_operator.Api.Assignment.{AzurePolicyAssignment}
use policy_operator.World.{
  Env, Trace, Fetched, found, not_found, Reply, reply, kube_call, get, list, Kind,
}
use policy_operator.Api.Definition.{AzurePolicyDefinition}
use policy_operator.World.Go.{returned}
use policy_operator.Common.Reconcile.{next}
use policy_operator.Assignment.Resolve.{
  assignments_referencing_definition, resolve_policy_definition_id,
}
use policy_operator.Assignment.Waking.{key_of, definition_wakes_assignment}
use policy_operator.Tests.Server.{server}
use policy_operator.Tests.Definition.{dropped}
use policy_operator.Tests.Assignment.{fresh}

abbrev waiting : AzurePolicyAssignment
waiting = record fresh { spec = record fresh.spec { policy_definition_ref = "tagged" } }

-- The definition is found under its own key and nothing under any other.
abbrev definition_at : Trace → Fetched AzurePolicyDefinition
definition_at (kube_call (get Kind.definition key) ∷ u) =
    if key.namespace == "platform" && key.name == "tagged" then found dropped else not_found "404"
definition_at _ = not_found "404"

-- The assignment is listed in its own namespace and nothing in any other.
abbrev assignments_at : Trace → Reply (List AzurePolicyAssignment)
assignments_at (kube_call (list Kind.assignment namespace) ∷ u) =
    if namespace == "platform" then reply (waiting ∷ []) else reply []
assignments_at _ = reply []

-- A server with that definition and that assignment.
abbrev stocked : Env
stocked = record server { definition_object = definition_at; assignment_list = assignments_at }

definition_wakes_assignment_example :
    (requests : List NamespacedName) × ((assignments_referencing_definition stocked dropped []).0
      ≡ returned requests)
    × Memᴰ (key_of waiting) requests
    × ((resolve_policy_definition_id stocked "platform" waiting []).0
        ≡ returned (next dropped.status.policy_definition_id))
definition_wakes_assignment_example =
    definition_wakes_assignment stocked dropped waiting (waiting ∷ []) [] [] (λ u. refl) (head refl)
      refl refl (ne_of_differ refl) (λ u. refl) (ne_of_differ refl)
