-- ===== src/Api/Condition.antt =====
-- api/v1alpha/condition_types.go: condition types and reasons, and what the code relies on of
-- k8s.io/apimachinery's `meta` package.
use doltdb_operator.Prelude.{
  ℕ, Bool, true, false, ◌≡◌, List, Option, none, some, Bytes, ◌==◌, if◌then◌else◌,
}

pub data ConditionType : Type 0 where
  ready primary_switched complete storage_resized updated snapshot_created : ConditionType
  backup_completed backup_schedule_created : ConditionType

pub data ConditionStatus : Type 0 where
  condition_true condition_false condition_unknown : ConditionStatus

pub data ConditionReason : Type 0 where
  snapshot_cron_job_created stateful_set_not_ready stateful_set_ready switch_primary :
      ConditionReason
  resizing_storage wait_storage_resize storage_was_resized : ConditionReason
  initializing initialized pending_update updating was_updated : ConditionReason
  connection_failed created healthy failed invalid_spec : ConditionReason
  backup_pending backup_running backup_was_completed backup_failed schedule_created :
      ConditionReason

-- The fields of `metav1.Condition` that the code writes.
pub record Condition : Type 0 where
  pub kind : ConditionType
  pub status : ConditionStatus
  pub reason : ConditionReason
  pub message : Bytes

abbrev pub type_code : ConditionType → ℕ
type_code ready = 0
type_code primary_switched = 1
type_code complete = 2
type_code storage_resized = 3
type_code updated = 4
type_code snapshot_created = 5
type_code backup_completed = 6
type_code backup_schedule_created = 7

abbrev pub same_type : ConditionType → ConditionType → Bool
same_type a b = type_code a == type_code b

abbrev pub is_true : ConditionStatus → Bool
is_true condition_true = true
is_true _ = false

abbrev pub is_false : ConditionStatus → Bool
is_false condition_false = true
is_false _ = false

abbrev pub found_true : Option Condition → Bool
found_true none = false
found_true (some c) = is_true c.status

abbrev pub found_false : Option Condition → Bool
found_false none = false
found_false (some c) = is_false c.status

-- `k8s.io/apimachinery/pkg/api/meta`, by its documented behaviour: a set condition is found under
-- its type and leaves the others, and the two tests look at the status of the one found.
pub record Meta : Type 0 where
  pub find_status_condition : List Condition → ConditionType → Option Condition
  pub set_status_condition : List Condition → Condition → List Condition
  pub is_status_condition_true : List Condition → ConditionType → Bool
  pub is_status_condition_false : List Condition → ConditionType → Bool
  pub find-set :
      (cs : List Condition) (c : Condition) (t : ConditionType)
      → find_status_condition (set_status_condition cs c) t
        ≡ (if same_type c.kind t then some c else find_status_condition cs t)
  pub true_found :
      (cs : List Condition) (t : ConditionType)
      → is_status_condition_true cs t ≡ found_true (find_status_condition cs t)
  pub false_found :
      (cs : List Condition) (t : ConditionType)
      → is_status_condition_false cs t ≡ found_false (find_status_condition cs t)
