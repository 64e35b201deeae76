-- ===== src/Initiative/Resolving.antt =====
-- What resolving the references of an initiative returns, and who is told when a definition changes.
use mathlib.Core.List.{Memᴰ}
use mathlib.Core.List.Memᴰ.{head, tail, not-nil, cases_cons}
use policy_operator.Base.{
  sym, ap, ◌∙◌, true, String, List, [], ◌∷◌, ◌≡◌, ◌↔◌, ◌==◌, arith, eq_iff, refl, Bool-cases, inl,
  inr,
}
use policy_operator.Base.Lists.{length}
use policy_operator.Api.Meta.{NamespacedName}
use policy_operator.Api.Initiative.{AzurePolicyInitiative, PolicyDefinitionReference}
use policy_operator.World.{Event, kube_call, get, Kind, Env, Trace}
use policy_operator.World.Go.{returned}
use policy_operator.Initiative.Resolve.{
  resolved, resolve_refs, resolve_policy_definition_ids, requests_for, refers_to,
}

module _ (env : Env) (initiative : AzurePolicyInitiative) (namespace : String) where
  abbrev lookup : PolicyDefinitionReference → Event
  lookup ref =
      kube_call
        (get Kind.definition (record { namespace = namespace; name = ref.policy_definition_ref }))

  length-resolve_refs :
      (refs : List PolicyDefinitionReference) (t : Trace) (ids : List String)
      → (resolve_refs env initiative namespace refs t).0 ≡ returned (resolved ids)
      → length refs ≡ length ids
  unfolding resolve_refs
  length-resolve_refs [] t ids h = ground arith
  length-resolve_refs (ref ∷ refs) t [] h = ground arith
  length-resolve_refs (ref ∷ refs) t (id ∷ ids) h =
      ground (arith, length-resolve_refs refs t ids, length-resolve_refs refs (lookup ref ∷ t) ids)

  -- Where resolving the references of an initiative returns IDs, there are as many IDs as
  -- references.
  length-resolve_policy_definition_ids :
      (t : Trace) (ids : List String)
      → (resolve_policy_definition_ids env initiative namespace t).0 ≡ returned (resolved ids)
      → length initiative.spec.policy_definitions ≡ length ids
  unfolding resolve_policy_definition_ids
  length-resolve_policy_definition_ids t ids h =
      length-resolve_refs initiative.spec.policy_definitions t ids h

abbrev pub key_of : AzurePolicyInitiative → NamespacedName
key_of initiative = record { namespace = initiative.meta.namespace; name = initiative.meta.name }

refers_to_iff :
    (name : String) (refs : List PolicyDefinitionReference)
    → (refers_to name refs ≡ true)
      ↔ ((ref : PolicyDefinitionReference) × Memᴰ ref refs × (ref.policy_definition_ref ≡ name))
unfolding refers_to
refers_to_iff name [] = (λ h. ground arith, λ (ref, m, e). absurd (not-nil m))
refers_to_iff name (r ∷ refs) = (
  λ h. elim (Bool-cases (r.policy_definition_ref == name)) [
    | inl same ↦ (r, head refl, (eq_iff r.policy_definition_ref name).0 same)
    | inr other ↦ let (ref, m, e) = (refers_to_iff name refs).0 (ground arith) in (ref, tail m, e)
  ],
  λ (ref, m, e). elim (cases_cons m) [
    | inl same ↦ rw (← same, (eq_iff ref.policy_definition_ref name).1 e)
    | inr later ↦ ground (arith, (refers_to_iff name refs).1 (ref, later, e))
  ],
)

-- A request among those for a definition is the key of a listed initiative that refers to it.
abbrev pub Requested : String → NamespacedName → List AzurePolicyInitiative → Type 0
Requested name request items =
    (initiative : AzurePolicyInitiative) × Memᴰ initiative items
    × (key_of initiative ≡ request)
    × ((ref : PolicyDefinitionReference) × Memᴰ ref initiative.spec.policy_definitions
        × (ref.policy_definition_ref ≡ name))

still_asked :
    (name : String) (request : NamespacedName) (initiative : AzurePolicyInitiative)
    (items : List AzurePolicyInitiative)
    → Requested name request items
    → Requested name request (initiative ∷ items)
still_asked name request initiative items (i, m, e, refers) = (i, tail m, e, refers)

asked_of_member :
    (name : String) (request : NamespacedName) (items : List AzurePolicyInitiative)
    → Memᴰ request (requests_for name items)
    → Requested name request items
unfolding requests_for
asked_of_member name request [] m = absurd (not-nil m)
asked_of_member name request (i ∷ items) m =
    elim (Bool-cases (refers_to name i.spec.policy_definitions)) [
      | inl refers ↦ elim (cases_cons (rw refers at m)) [
        | inl e ↦ (i, head refl, sym e, (refers_to_iff name i.spec.policy_definitions).0 refers)
        | inr later ↦ still_asked name request i items (asked_of_member name request items later)
      ]
      | inr not_referred ↦
          still_asked name request i items
            (asked_of_member name request items (rw not_referred at m))
    ]

member_of_asked :
    (name : String) (request : NamespacedName) (items : List AzurePolicyInitiative)
    → Requested name request items
    → Memᴰ request (requests_for name items)
unfolding requests_for
member_of_asked name request [] (i, m, e, refers) = absurd (not-nil m)
member_of_asked name request (j ∷ items) (i, m, e, refers) = elim (cases_cons m) [
  | inl same ↦
      rw ((refers_to_iff name j.spec.policy_definitions).1 (rw same at refers))
        (head (sym e ∙ ap key_of same))
  | inr later ↦
      let below = member_of_asked name request items (i, later, e, refers) in
      elim (Bool-cases (refers_to name j.spec.policy_definitions)) [
        | inl referred ↦ rw referred (tail below)
        | inr not_referred ↦ rw not_referred below
      ]
]

-- A request is among those for a changed definition exactly when it is the key of a listed
-- initiative that has a reference to the name of the definition.
pub requests_for_iff :
    (name : String) (request : NamespacedName) (items : List AzurePolicyInitiative)
    → Memᴰ request (requests_for name items) ↔ Requested name request items
requests_for_iff name request items =
    (asked_of_member name request items, member_of_asked name request items)
