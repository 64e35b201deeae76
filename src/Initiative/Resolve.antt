-- ===== src/Initiative/Resolve.antt =====
-- internal/controller/azurepolicyinitiative_controller.go: resolvePolicyDefinitionIDs, and the map
-- from a definition to the initiatives that refer to it.
use policy_operator.Base.{Bool, true, false, String, List, [], ◌∷◌, ◌==◌, ◌/=◌, ◌||◌, if◌then◌else◌}
use policy_operator.Failure.{Error, kube, sprintf, sprintf_error}
use policy_operator.Api.Meta.{NamespacedName, condition_false}
use policy_operator.Api.Definition.{AzurePolicyDefinition}
use policy_operator.Api.Initiative.{AzurePolicyInitiative, PolicyDefinitionReference}
use policy_operator.World.{
  Env, kube_call, get, list, Kind, Object, Fetched, found, not_found, get_failed, Reply, reply,
  failed,
}
use policy_operator.World.Go.{Go, ask, pure, kube_update_status, ◌>>=◌}
use policy_operator.Initiative.Object.{set_condition}

-- ([]string, error): the IDs, or nil without an error, or an error.
pub data Resolved : Type 0 where
  resolved : List String → Resolved
  not_ready : Resolved
  not_resolved : Error → Resolved

abbrev pub add_id : String → Resolved → Resolved
add_id id (resolved ids) = resolved (id ∷ ids)
add_id id not_ready = not_ready
add_id id (not_resolved e) = not_resolved e

module _ (env : Env) (initiative : AzurePolicyInitiative) (namespace : String) where
  abbrev ref_not_found : String → Error → Go Resolved
  ref_not_found ref e = do
    ignored ← kube_update_status env (
        Object.initiative (
          set_condition env condition_false "RefNotFound"
            (sprintf_error "AzurePolicyDefinition %q not found: %v" (ref ∷ []) e) initiative))
    pure (not_resolved e)

  abbrev ref_not_ready : String → Go Resolved
  ref_not_ready ref = do
    ignored ← kube_update_status env (
        Object.initiative (
          set_condition env condition_false "RefNotReady"
            (sprintf "AzurePolicyDefinition %q has no policyDefinitionId in status yet" (ref ∷ []))
            initiative))
    pure not_ready

  -- One round of the loop, with the rest of the loop as an argument.
  abbrev resolve_found : String → Go Resolved → Fetched AzurePolicyDefinition → Go Resolved
  resolve_found ref rest (not_found text) = ref_not_found ref (kube true text)
  resolve_found ref rest (get_failed text) = ref_not_found ref (kube false text)
  resolve_found ref rest (found def) =
      if def.status.policy_definition_id == ""
      then ref_not_ready ref
      else (do ids ← rest; pure (add_id def.status.policy_definition_id ids))

  unfoldable pub resolve_refs : List PolicyDefinitionReference → Go Resolved
  unfolding ◌>>=◌ ask pure kube_update_status set_condition
  resolve_refs [] = pure (resolved [])
  resolve_refs (ref ∷ refs) =
      let rest = resolve_refs refs in
      if ref.policy_definition_ref /= ""
      then (do
        object ←
            ask
              (kube_call (
                get Kind.definition
                  (record { namespace = namespace; name = ref.policy_definition_ref })))
              env.definition_object
        resolve_found ref.policy_definition_ref rest object)
      else (do ids ← rest; pure (add_id ref.policy_definition_id ids))

  unfoldable pub resolve_policy_definition_ids : Go Resolved
  unfolding resolve_refs
  resolve_policy_definition_ids = resolve_refs initiative.spec.policy_definitions

-- The inner loop: does the initiative name the definition?
unfoldable pub refers_to : String → List PolicyDefinitionReference → Bool
refers_to name [] = false
refers_to name (ref ∷ refs) = ref.policy_definition_ref == name || refers_to name refs

unfoldable pub requests_for : String → List AzurePolicyInitiative → List NamespacedName
unfolding refers_to
requests_for name [] = []
requests_for name (initiative ∷ items) =
    let rest = requests_for name items in
    if refers_to name initiative.spec.policy_definitions
    then record { namespace = initiative.meta.namespace; name = initiative.meta.name } ∷ rest
    else rest

module _ (env : Env) where
  -- A failing List gives no requests.
  abbrev listed_requests : String → Reply (List AzurePolicyInitiative) → List NamespacedName
  listed_requests name (failed text) = []
  listed_requests name (reply items) = requests_for name items

  unfoldable pub initiatives_referencing_definition :
      AzurePolicyDefinition → Go (List NamespacedName)
  unfolding ◌>>=◌ ask pure requests_for
  initiatives_referencing_definition def = do
    items ← ask (kube_call (list Kind.initiative def.meta.namespace)) env.initiative_list
    pure (listed_requests def.meta.name items)
