-- ===== src/Common/Reconcile.antt =====
-- What the controllers share: the answer of Reconcile, early returns, the Ready, Imported and
-- DriftDetected conditions.
use policy_operator.Base.{Bool, String, Option, none, some, List, [], ◌∷◌, ◌==◌, if◌then◌else◌}
use policy_operator.Failure.{Error, Message, plain, sprintf, join}
use policy_operator.Api.Meta.{
  ObjectMeta, Condition, ConditionStatus, condition_true, condition_false, ControlResult,
  import_mode_observe_only,
}

-- (ctrl.Result, error)
pub record Answer : Type 0 where
  pub result : ControlResult
  pub error : Option Error

abbrev pub answer : ControlResult → Option Error → Answer
answer result error = record { result = result; error = error }

-- The (ctrl.Result, bool, error) of a step: done with an answer, or on with a value.
pub data Step {ℓ} (A : Type ℓ) : Type ℓ where
  done : Answer → Step A
  next : A → Step A

abbrev pub ready : ConditionStatus → String → Message → ObjectMeta → Condition
ready status reason message meta = record {
  type = "Ready";
  status = status;
  reason = reason;
  message = message;
  observed_generation = meta.generation;
}

abbrev pub imported : ConditionStatus → String → Message → ObjectMeta → Condition
imported status reason message meta = record {
  type = "Imported";
  status = status;
  reason = reason;
  message = message;
  observed_generation = meta.generation;
}

-- setDriftCondition, whose two messages name the kind of resource
abbrev pub drift_detected : (differs matches : String) → List String → ObjectMeta → Condition
drift_detected differs matches [] meta = record {
  type = "DriftDetected";
  status = condition_false;
  reason = "InSync";
  message = plain matches;
  observed_generation = meta.generation;
}
drift_detected differs matches (f ∷ fs) meta = record {
  type = "DriftDetected";
  status = condition_true;
  reason = "SpecMismatch";
  message = sprintf differs (join ", " (f ∷ fs) ∷ []);
  observed_generation = meta.generation;
}

-- `if importMode == "" { importMode = importModeObserveOnly }`
unfoldable pub or_observe_only : String → String
or_observe_only mode = if mode == "" then import_mode_observe_only else mode

-- `cond != nil && cond.Reason == reason`
abbrev pub has_reason : String → Option Condition → Bool
has_reason reason none = Bool.false
has_reason reason (some c) = c.reason == reason
