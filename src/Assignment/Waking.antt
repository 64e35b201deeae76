-- ===== src/Assignment/Waking.antt =====
-- A definition that has got its ID wakes the assignments that wait for it, and they find the ID.
use mathlib.Core.List.{Memᴰ}
use mathlib.Core.List.Memᴰ.{head, tail, not-nil, cases_cons}
use policy_operator.Base.{
  String, List, [], ◌∷◌, ◌≡◌, ◌≢◌, ◌==◌, arith, eq_iff, refl, sym, ap, ◌∙◌, Bool-cases, inl, inr,
}
use policy_operator.Api.Meta.{NamespacedName}
use policy_operator.Api.Definition.{AzurePolicyDefinition}
use policy_operator.Api.Assignment.{AzurePolicyAssignment}
use policy_operator.World.{Env, Event, Trace, found, reply, kube_call, get, list, Kind}
use policy_operator.World.Go.{returned}
use policy_operator.Common.Reconcile.{next}
use policy_operator.Assignment.Resolve.{
  requests_for, assignments_referencing_definition, resolve_policy_definition_id,
}

-- The key that a request for the assignment has.
abbrev pub key_of : AzurePolicyAssignment → NamespacedName
key_of a = record { namespace = a.meta.namespace; name = a.meta.name }

requested :
    (name : String) (a : AzurePolicyAssignment) (items : List AzurePolicyAssignment)
    → Memᴰ a items
    → a.spec.policy_definition_ref ≡ name
    → Memᴰ (key_of a) (requests_for name items)
unfolding requests_for
requested name a [] m e = absurd (not-nil m)
requested name a (b ∷ items) m e = elim (cases_cons m) [
  | inl same ↦
      rw
        ((eq_iff b.spec.policy_definition_ref name).1
          (sym (ap (λ x. x.spec.policy_definition_ref) same) ∙ e))
        (head (ap key_of same))
  | inr later ↦ elim (Bool-cases (b.spec.policy_definition_ref == name)) [
    | inl refers ↦ rw refers (tail (requested name a items later e))
    | inr other ↦ rw other (requested name a items later e)
  ]
]

-- The key that the definition is looked up by.
abbrev pub definition_key : AzurePolicyDefinition → NamespacedName
definition_key def = record { namespace = def.meta.namespace; name = def.meta.name }

module _ (env : Env) (def : AzurePolicyDefinition) (a : AzurePolicyAssignment) where
  abbrev lookup : Event
  lookup = kube_call (
      get Kind.definition
        (record { namespace = a.meta.namespace; name = a.spec.policy_definition_ref }))

  resolves :
      (s : Trace)
      → a.spec.policy_definition_ref ≢ ""
      → env.definition_object (lookup ∷ s) ≡ found def
      → def.status.policy_definition_id ≢ ""
      → (resolve_policy_definition_id env a.meta.namespace a s).0
        ≡ returned (next def.status.policy_definition_id)
  unfolding resolve_policy_definition_id
  resolves s by_ref served bound =
      ground
        (arith, eq_iff a.spec.policy_definition_ref "", eq_iff def.status.policy_definition_id "")

  -- If a Get under the namespace and name of a definition with a recorded ID finds it, a List in
  -- its namespace has an assignment of that namespace, and the assignment refers to the definition
  -- by name, the request for the assignment is among those for the definition, and resolving its
  -- reference, whenever that is, gives the ID.
  pub definition_wakes_assignment :
      (items : List AzurePolicyAssignment) (t s : Trace)
      → ((u : Trace)
          → env.assignment_list (kube_call (list Kind.assignment def.meta.namespace) ∷ u)
            ≡ reply items)
      → Memᴰ a items
      → a.meta.namespace ≡ def.meta.namespace
      → a.spec.policy_definition_ref ≡ def.meta.name
      → a.spec.policy_definition_ref ≢ ""
      → ((u : Trace)
          → env.definition_object (kube_call (get Kind.definition (definition_key def)) ∷ u)
            ≡ found def)
      → def.status.policy_definition_id ≢ ""
      → (requests : List NamespacedName) × ((assignments_referencing_definition env def t).0
          ≡ returned requests)
        × Memᴰ (key_of a) requests
        × ((resolve_policy_definition_id env a.meta.namespace a s).0
            ≡ returned (next def.status.policy_definition_id))
  unfolding assignments_referencing_definition
  definition_wakes_assignment items t s listed m near refers by_ref served bound = (
    requests_for def.meta.name items,
    simp listed refl,
    requested def.meta.name a items m refers,
    resolves s by_ref (rw (near, refers) (served s)) bound,
  )
