-- ===== src/World/Go/Quiet.antt =====
-- The write to Kubernetes that a chain makes, when its first half makes none.
use policy_operator.Base.{refl, ◌≡◌, sym, ◌∙◌, ◌∷◌}
use policy_operator.Base.Lists.{ne-cons}
use policy_operator.World.{Trace, KubeCall}
use policy_operator.World.Go.{Go, Outcome, returned, panicked, continue, ◌>>=◌}
use policy_operator.World.Views.{kube_writes}

-- The call makes one write to Kubernetes, and it is `w`.
abbrev pub Makes {ℓ} : {A : Type ℓ} → Go A → Trace → KubeCall → Type 0
Makes m t w = kube_writes (m t).1 ≡ w ∷ kube_writes t

-- The call makes no write to Kubernetes.
abbrev pub IsQuiet {ℓ} : {A : Type ℓ} → Go A → Trace → Type 0
IsQuiet m t = kube_writes (m t).1 ≡ kube_writes t

module _ {ℓ κ μ} {A : Type ℓ} {B : Type κ} {P : Type μ} where
  after-continue :
      (r : Outcome A) (f : A → Go B) (t t' : Trace) (w : KubeCall)
      → kube_writes t' ≡ kube_writes t
      → ((a : A) → r ≡ returned a → (s : Trace) → Makes (f a) s w → P)
      → kube_writes (continue r f t').1 ≡ w ∷ kube_writes t
      → P
  after-continue (returned a) f t t' w same k h = k a refl t' (rw same h)
  after-continue panicked f t t' w same k h = absurd (ne-cons w (kube_writes t) (sym same ∙ h))

  pub made_later :
      (m : Go A) (f : A → Go B) (t : Trace) (w : KubeCall)
      → IsQuiet m t
      → ((a : A) → (m t).0 ≡ returned a → (s : Trace) → Makes (f a) s w → P)
      → Makes (m >>= f) t w
      → P
  unfolding ◌>>=◌
  made_later m f t w same k h = after-continue (m t).0 f t (m t).1 w same k h

module _ {ℓ κ μ} {A : Type ℓ} {B : Type κ} {P : Type μ} where
  split-continue :
      (r : Outcome A) (f : A → Go B) (t t' : Trace) (w : KubeCall)
      → ((a : A) → r ≡ returned a → kube_writes (f a t').1 ≡ w ∷ kube_writes t → P)
      → (kube_writes t' ≡ w ∷ kube_writes t → P)
      → kube_writes (continue r f t').1 ≡ w ∷ kube_writes t
      → P
  split-continue (returned a) f t t' w k j h = k a refl h
  split-continue panicked f t t' w k j h = j h

  -- The write of a chain, seen from what its first half returned.
  pub made_by :
      (m : Go A) (f : A → Go B) (t : Trace) (w : KubeCall)
      → ((a : A) → (m t).0 ≡ returned a → kube_writes (f a (m t).1).1 ≡ w ∷ kube_writes t → P)
      → (Makes m t w → P)
      → Makes (m >>= f) t w
      → P
  unfolding ◌>>=◌
  made_by m f t w k j h = split-continue (m t).0 f t (m t).1 w k j h

module _ {ℓ κ μ} {A : Type ℓ} {B : Type κ} {C : Type μ} where
  assoc-continue :
      (r : Outcome A) (f : A → Go B) (g : B → Go C) (t : Trace)
      → continue (continue r f t).0 g (continue r f t).1 ≡ continue r (λ a. f a >>= g) t
  unfolding ◌>>=◌
  assoc-continue (returned a) f g t = refl
  assoc-continue panicked f g t = refl

  -- Chains are associative.
  pub assoc :
      (m : Go A) (f : A → Go B) (g : B → Go C) (t : Trace)
      → ((m >>= f) >>= g) t ≡ (m >>= (λ a. f a >>= g)) t
  unfolding ◌>>=◌
  assoc m f g t = assoc-continue (m t).0 f g (m t).1
