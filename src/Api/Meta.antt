-- ===== src/Api/Meta.antt =====
-- Object metadata and status conditions (metav1), as far as the operator reads and writes them,
-- and the constants of internal/controller/controller_types.go.
use policy_operator.Base.{ℕ, Bool, false, String, List}
use policy_operator.Base.Lists.{Dict, text_at}
use policy_operator.Failure.{Message}

pub record ObjectMeta : Type 0 where
  pub name : String
  pub namespace : String
  pub generation : ℕ
  -- !DeletionTimestamp.IsZero()
  pub is_deleting : Bool
  pub finalizers : List String
  pub annotations : Dict String

pub data ConditionStatus : Type 0 where
  condition_true condition_false condition_unknown : ConditionStatus

-- metav1.Condition without LastTransitionTime, which nothing here reads.
pub record Condition : Type 0 where
  pub type : String
  pub status : ConditionStatus
  pub reason : String
  pub message : Message
  pub observed_generation : ℕ

pub record NamespacedName : Type 0 where
  pub namespace : String
  pub name : String

-- ctrl.Result; durations are in seconds.
pub record ControlResult : Type 0 where
  pub requeue : Bool
  pub requeue_after : ℕ

abbrev pub no_requeue : ControlResult
no_requeue = record { requeue = false; requeue_after = 0 }

abbrev pub requeue_in : ℕ → ControlResult
requeue_in seconds = record { requeue = false; requeue_after = seconds }

abbrev pub default_requeue_duration : ℕ
default_requeue_duration = 3600

abbrev pub failed_requeue_duration : ℕ
failed_requeue_duration = 120

abbrev pub annotation_import_id : String
annotation_import_id = "governance.platform.io/import-id"

abbrev pub annotation_import_name : String
annotation_import_name = "governance.platform.io/import-name"

abbrev pub annotation_import_mode : String
annotation_import_mode = "governance.platform.io/import-mode"

abbrev pub import_mode_observe_only : String
import_mode_observe_only = "observe-only"

abbrev pub import_mode_only_once : String
import_mode_only_once = "adopt-once"

abbrev pub import_mode_reconcile_only : String
import_mode_reconcile_only = "reconcile"

abbrev pub reason_applied_once : String
reason_applied_once = "AppliedOnce"

-- object.Annotations[key]
abbrev pub annotation : ObjectMeta → String → String
annotation meta key = text_at meta.annotations key
