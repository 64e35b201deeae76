-- ===== src/Failure.antt =====
-- Go errors and the messages made from them. A text made by fmt keeps its format and arguments:
-- the rendering of %q and %v is not modelled, and no code branches on a rendered text.
use policy_operator.Base.{Bool, String, List, [], ◌∷◌, ◌<>◌}

pub data Error : Type 0 where
  -- an error of the Azure SDK, by its Error() text
  azure : String → Error
  -- an error of the Kubernetes client; the flag is apierrors.IsNotFound
  kube : Bool → String → Error
  -- fmt.Errorf without and with %w
  errorf : String → List String → Error
  wrapf : String → List String → Error → Error

pub data Message : Type 0 where
  plain : String → Message
  sprintf : String → List String → Message
  error_text : Error → Message
  sprintf_error : String → List String → Error → Message

-- (A, error)
pub data Result {ℓ} (A : Type ℓ) : Type ℓ where
  ok : A → Result A
  err : Error → Result A

-- strings.Join
unfoldable pub join : String → List String → String
join sep [] = ""
join sep (s ∷ []) = s
join sep (s ∷ t ∷ ss) = s <> (sep <> join sep (t ∷ ss))
