-- ===== src/Assignment/Resolve.antt =====
-- internal/controller/azurepolicyassignment_controller.go: resolvePolicyDefinitionID, and the map
-- from a definition to the assignments that refer to it.
use policy_operator.Base.{Bool, String, none, some, List, [], ◌∷◌, ◌==◌, if◌then◌else◌}
use policy_operator.Failure.{Error, kube, sprintf, sprintf_error}
use policy_operator.Api.Meta.{
  NamespacedName, no_requeue, requeue_in, default_requeue_duration, condition_false,
}
use policy_operator.Api.Definition.{AzurePolicyDefinition}
use policy_operator.Api.Assignment.{AzurePolicyAssignment}
use policy_operator.World.{
  Env, kube_call, get, list, Kind, Object, Fetched, found, not_found, get_failed, Reply, reply,
  failed,
}
use policy_operator.World.Go.{Go, ask, pure, kube_update_status, ◌>>=◌}
use policy_operator.Common.Reconcile.{answer, Step, done, next}
use policy_operator.Assignment.Object.{set_condition}

module _ (env : Env) (namespace : String) where
  abbrev ref_failed : AzurePolicyAssignment → Error → Go (Step String)
  ref_failed assignment e = do
    ignored ← kube_update_status env (
        Object.assignment (
          set_condition env condition_false "RefNotFound"
            (sprintf_error "AzurePolicyDefinition %q not found: %v"
              (assignment.spec.policy_definition_ref ∷ []) e)
            assignment))
    pure (done (answer no_requeue (some e)))

  abbrev pub resolve_found :
      AzurePolicyAssignment → Fetched AzurePolicyDefinition → Go (Step String)
  resolve_found assignment (not_found text) = ref_failed assignment (kube Bool.true text)
  resolve_found assignment (get_failed text) = ref_failed assignment (kube Bool.false text)
  resolve_found assignment (found def) =
      if def.status.policy_definition_id == ""
      then (do
        ignored ← kube_update_status env (
            Object.assignment (
              set_condition env condition_false "RefNotReady"
                (sprintf "AzurePolicyDefinition %q has no policyDefinitionId in status yet"
                  (assignment.spec.policy_definition_ref ∷ []))
                assignment))
        pure (done (answer (requeue_in default_requeue_duration) none)))
      else pure (next def.status.policy_definition_id)

  unfoldable pub resolve_policy_definition_id : AzurePolicyAssignment → Go (Step String)
  unfolding ◌>>=◌ ask pure kube_update_status set_condition
  resolve_policy_definition_id assignment =
      if assignment.spec.policy_definition_ref == ""
      then pure (next assignment.spec.policy_definition_id)
      else (do
        object ←
            ask
              (kube_call (
                get Kind.definition
                  (record { namespace = namespace; name = assignment.spec.policy_definition_ref })))
              env.definition_object
        resolve_found assignment object)

unfoldable pub requests_for : String → List AzurePolicyAssignment → List NamespacedName
requests_for name [] = []
requests_for name (a ∷ items) =
    let rest = requests_for name items in
    if a.spec.policy_definition_ref == name
    then record { namespace = a.meta.namespace; name = a.meta.name } ∷ rest
    else rest

module _ (env : Env) where
  -- A failing List gives no requests.
  abbrev listed_requests : String → Reply (List AzurePolicyAssignment) → List NamespacedName
  listed_requests name (failed text) = []
  listed_requests name (reply items) = requests_for name items

  unfoldable pub assignments_referencing_definition :
      AzurePolicyDefinition → Go (List NamespacedName)
  unfolding ◌>>=◌ ask pure requests_for
  assignments_referencing_definition def = do
    items ← ask (kube_call (list Kind.assignment def.meta.namespace)) env.assignment_list
    pure (listed_requests def.meta.name items)
