-- ===== src/Exemption/Lifecycle.antt =====
-- The life of an AzurePolicyExemption object: what a reconcile stores, what a user may edit, and that
-- every step is one that the abstract machine of managed objects allows.
pub mod Writes
pub mod Ids
pub mod Invariant
use Writes.{KeepsId, Reports, GivesIds, deletion_writes, live_writes}
use policy_operator.World.Go.Quiet.{Makes}
use policy_operator.World.Go.Once.{IncludesWrite, only_write}
use policy_operator.Exemption.Once.{exemption_writes_once}
use policy_operator.Base.{
  ap, sym, ◌∙◌, Bool, true, false, String, ◌≡◌, ◌≢◌, ◌⊎◌, inl, inr, refl, ◌∷◌, ◌/=◌, arith, eq_iff,
  Bool-cases,
}
use policy_operator.Base.Lists.{ne-cons}
use policy_operator.Failure.{Result, ok, err}
use policy_operator.Api.Meta.{annotation, annotation_import_mode, import_mode_observe_only}
use policy_operator.Api.Exemption.{AzurePolicyExemption}
use policy_operator.World.{Env, Trace, Object, KubeCall, update, update_status, IsMachinery}
use policy_operator.World.Go.{Outcome, returned}
use policy_operator.World.Views.{kube_writes}
use policy_operator.Lifecycle.{
  Phase, phase, Allowed, to_stay, to_mark, to_hold, to_edit, to_report, to_release,
}
use policy_operator.Exemption.Object.{
  ExemptionService, has_finalizer, add_finalizer, remove_finalizer, finalizer,
}
use policy_operator.Exemption.Controller.{handle_deletion}
use policy_operator.Exemption.Laws.{IsLawful}
use policy_operator.Exemption.Laws.{exemption_finalizer_goes_safely}
use policy_operator.Exemption.Controller.{reconcile_fetched}

-- What the API server stores: Update leaves the status, and Status().Update all else, as it is.
unfoldable pub land : KubeCall → AzurePolicyExemption → AzurePolicyExemption
land (update (Object.exemption d)) exemption = record exemption { meta = d.meta; spec = d.spec }
land (update_status (Object.exemption d)) exemption = record exemption { status = d.status }
land _ exemption = exemption

-- The operator alone writes the status and the finalizers, and a deletion is not taken back.
abbrev pub Edits : AzurePolicyExemption → AzurePolicyExemption → Type 0
Edits a b =
    (b.status ≡ a.status)
    × (b.meta.finalizers ≡ a.meta.finalizers)
    × (a.meta.is_deleting ≡ true → b.meta.is_deleting ≡ true)

abbrev pub is_gone : AzurePolicyExemption → Bool
is_gone exemption = exemption.meta.is_deleting

abbrev pub is_bound : AzurePolicyExemption → Bool
is_bound exemption = exemption.status.exemption_id /= ""

module _ (env : Env) (svc : ExemptionService) (recorder : Bool) where
  abbrev pub phase_of : AzurePolicyExemption → Phase
  phase_of exemption = phase (is_gone exemption) (has_finalizer env exemption) (is_bound exemption)

  -- From the trace `t` on, a reconcile writes the object without the finalizer.
  abbrev pub Releases : AzurePolicyExemption → Trace → Type 0
  Releases exemption t =
      Makes (reconcile_fetched env svc recorder exemption) t
        (update (Object.exemption (remove_finalizer env exemption)))

  -- Azure keeps nothing of the object, or is to keep it.
  abbrev pub MayGo : AzurePolicyExemption → Type 0
  MayGo exemption =
      (exemption.status.exemption_id ≡ "")
      ⊎ ((t : Trace) × ((svc.delete exemption.spec.scope exemption.status.exemption_id t).0
            ≡ returned (ok tt))
          × Releases exemption t)

  -- An edit, or any of the writes of a reconcile, stored; a reconcile may start in any world.
  pub data Moves (a b : AzurePolicyExemption) : Type 0 where
    edited : Edits a b → Moves a b
    saved :
        (t : Trace) (w : KubeCall)
        → IncludesWrite (reconcile_fetched env svc recorder a) t w
        → b ≡ land w a
        → Moves a b

module _ (env : Env) (machinery : IsMachinery env) (svc : ExemptionService) (lawful : IsLawful svc)
    (gives_ids : GivesIds svc) (recorder : Bool) where
  abbrev Steps : AzurePolicyExemption → AzurePolicyExemption → Type 0
  Steps a b =
      Allowed (MayGo env svc recorder a) (phase_of env svc recorder a) (phase_of env svc recorder b)

  edit-Steps : (a b : AzurePolicyExemption) → Edits a b → Steps a b
  edit-Steps a b (status, finalizers, deleting) =
      to_edit deleting (ap (λ fs. env.contains_finalizer fs finalizer) finalizers)
        (ap (λ s. s.exemption_id /= "") status)

  KeepsId-land :
      (a : AzurePolicyExemption) (w : KubeCall)
      → KeepsId a w
      → ((land w a).meta ≡ a.meta) × ((land w a).status.exemption_id ≡ a.status.exemption_id)
  unfolding land
  KeepsId-land a w same = ground arith

  KeepsId-Steps : (a : AzurePolicyExemption) (w : KubeCall) → KeepsId a w → Steps a (land w a)
  KeepsId-Steps a w keeps =
      let (meta, id) = KeepsId-land a w keeps in
      to_stay (ap (λ m. m.is_deleting) meta)
        (ap (λ m. env.contains_finalizer m.finalizers finalizer) meta) (ap (λ i. i /= "") id)

  Reports-land :
      (a : AzurePolicyExemption) (w : KubeCall)
      → Reports a w
      → ((land w a).meta ≡ a.meta)
        × ((((land w a).status.exemption_id /= "") ≡ (a.status.exemption_id /= ""))
            ⊎ (((land w a).status.exemption_id /= "") ≡ true))
  unfolding land
  Reports-land a w same = ground arith

  Reports-Steps :
      (a : AzurePolicyExemption) (w : KubeCall)
      → a.meta.is_deleting ≡ false
      → has_finalizer env a ≡ true
      → Reports a w
      → Steps a (land w a)
  Reports-Steps a w live held reports =
      let (meta, id) = Reports-land a w reports in
      to_report live held (ap (λ m. m.is_deleting) meta)
        (ap (λ m. env.contains_finalizer m.finalizers finalizer) meta) id

  release-Steps :
      (a : AzurePolicyExemption)
      → a.meta.is_deleting ≡ true
      → has_finalizer env a ≡ true
      → MayGo env svc recorder a
      → Steps a (land (update (Object.exemption (remove_finalizer env a))) a)
  unfolding land remove_finalizer
  release-Steps a gone held clear =
      to_release gone held refl (machinery.contains-remove a.meta.finalizers finalizer) refl clear

  hold-Steps :
      (a : AzurePolicyExemption)
      → a.meta.is_deleting ≡ false
      → has_finalizer env a ≡ false
      → Steps a (land (update (Object.exemption (add_finalizer env a))) a)
  unfolding land add_finalizer
  hold-Steps a live missing =
      to_hold live missing refl (machinery.contains-add a.meta.finalizers finalizer) refl

  cleared_by :
      (a : AzurePolicyExemption) (t : Trace)
      → Releases env svc recorder a t
      → (a.status.exemption_id ≡ "")
        ⊎ ((svc.delete a.spec.scope a.status.exemption_id t).0 ≡ returned (ok tt))
      → MayGo env svc recorder a
  cleared_by a t made (inl missing) = inl missing
  cleared_by a t made (inr deleted) = inr (t, deleted, made)

  deletion-Steps :
      (a : AzurePolicyExemption) (t : Trace) (w : KubeCall)
      → a.meta.is_deleting ≡ true
      → Makes (reconcile_fetched env svc recorder a) t w
      → Steps a (land w a)
  unfolding reconcile_fetched handle_deletion
  deletion-Steps a t w gone made = elim (Bool-cases (has_finalizer env a)) [
    | inr missing ↦ absurd (ground (arith, ne-cons w (kube_writes t)))
    | inl held ↦
        let deleted : Makes (handle_deletion env svc recorder a) t w = ground arith in
        elim (deletion_writes env svc recorder lawful a t w deleted) [
          | inr same ↦ KeepsId-Steps a w same
          | inl e ↦ rw e (
              release-Steps a gone held (
                cleared_by a t (rw e at made) (
                  exemption_finalizer_goes_safely env svc recorder lawful a t gone held
                    (rw e at made))))
        ]
  ]

  held_first :
      (a : AzurePolicyExemption) (t : Trace) (w : KubeCall)
      → a.meta.is_deleting ≡ false
      → has_finalizer env a ≡ false
      → Makes (reconcile_fetched env svc recorder a) t w
      → w ≡ update (Object.exemption (add_finalizer env a))
  unfolding reconcile_fetched
  held_first a t w live missing made = ground arith

  live-Steps :
      (a : AzurePolicyExemption) (t : Trace) (w : KubeCall)
      → a.meta.is_deleting ≡ false
      → Makes (reconcile_fetched env svc recorder a) t w
      → Steps a (land w a)
  live-Steps a t w live made = elim (Bool-cases (has_finalizer env a)) [
    | inl held ↦
        Reports-Steps a w live held
          (live_writes env svc recorder lawful gives_ids a t w live held made)
    | inr missing ↦ rw (held_first a t w live missing made) (hold-Steps a live missing)
  ]

  -- Where apimachinery and the service meet their laws and Azure gives IDs, every edit of an
  -- exemption and every write that a reconcile makes, once stored, is a step of the abstract
  -- machine: the phase of the object stays, or it is marked as deleted, takes the finalizer while
  -- live and without it, has a resource ID while live and held, or loses the finalizer while
  -- deleted, held and cleared.
  pub exemption_refines :
      (a b : AzurePolicyExemption)
      → Moves env svc recorder a b
      → Allowed
          (MayGo env svc recorder a)
          (phase_of env svc recorder a)
          (phase_of env svc recorder b)
  exemption_refines a b (edited e) = edit-Steps a b e
  exemption_refines a b (saved t w writes e) =
      let made =
        only_write (reconcile_fetched env svc recorder a) t w
          (exemption_writes_once env svc recorder lawful a t) writes in
      rw e (elim (Bool-cases a.meta.is_deleting) [
        | inl gone ↦ deletion-Steps a t w gone made
        | inr live ↦ live-Steps a t w live made
      ])
