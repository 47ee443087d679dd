-- ===== src/Api/Status.antt =====
-- api/v1alpha/condition_types.go: the state of a DoltDB as its conditions tell it, and the updates
-- of its primary and epoch.
use doltdb_operator.Prelude.{ℕ, Bool, true, false, Option, none, some, ltb, ◌&&◌, if◌then◌else◌}
use doltdb_operator.Api.Condition.{
  Condition, ConditionReason, Meta, ready, primary_switched, storage_resized, updated,
  wait_storage_resize, pending_update, updating, is_false,
}
use doltdb_operator.Api.DoltDb.{DoltDb, DoltDbStatus}
use doltdb_operator.Naming.{pod_name}

abbrev is_waiting_reason : ConditionReason → Bool
is_waiting_reason wait_storage_resize = true
is_waiting_reason _ = false

abbrev is_pending_reason : ConditionReason → Bool
is_pending_reason pending_update = true
is_pending_reason _ = false

abbrev is_updating_reason : ConditionReason → Bool
is_updating_reason updating = true
is_updating_reason _ = false

abbrev pub found_waiting : Option Condition → Bool
found_waiting none = false
found_waiting (some c) = is_false c.status && is_waiting_reason c.reason

abbrev pub found_pending : Option Condition → Bool
found_pending none = false
found_pending (some c) = is_false c.status && is_pending_reason c.reason

abbrev pub found_updating : Option Condition → Bool
found_updating none = false
found_updating (some c) = is_false c.status && is_updating_reason c.reason

-- `UpdateCurrentPrimary`.
unfoldable pub update_current_primary : DoltDb → ℕ → DoltDbStatus → DoltDbStatus
update_current_primary d index s = record s {
  current_primary_pod_index = some index;
  current_primary = some (pod_name d.name index);
}

abbrev pub raise_epoch : Option ℕ → ℕ → ℕ
raise_epoch none epoch = epoch
raise_epoch (some current) epoch = if ltb epoch current then current else epoch

-- `UpdateReplicationEpoch`.
unfoldable pub update_replication_epoch : ℕ → DoltDbStatus → DoltDbStatus
update_replication_epoch epoch s = record s {
  replication_epoch = some (raise_epoch s.replication_epoch epoch);
}

module _ (m : Meta) where
  -- `DoltDBStatus.SetCondition`.
  unfoldable pub set_condition : Condition → DoltDbStatus → DoltDbStatus
  set_condition c s = record s { conditions = m.set_status_condition s.conditions c }

  unfoldable pub is_switching_primary : DoltDb → Bool
  is_switching_primary d = m.is_status_condition_false d.status.conditions primary_switched

  unfoldable pub is_ready : DoltDb → Bool
  is_ready d = m.is_status_condition_true d.status.conditions ready

  unfoldable pub is_resizing_storage : DoltDb → Bool
  is_resizing_storage d = m.is_status_condition_false d.status.conditions storage_resized

  unfoldable pub is_waiting_for_storage_resize : DoltDb → Bool
  is_waiting_for_storage_resize d =
      found_waiting (m.find_status_condition d.status.conditions storage_resized)

  unfoldable pub has_pending_update : DoltDb → Bool
  has_pending_update d = found_pending (m.find_status_condition d.status.conditions updated)

  unfoldable pub is_updating : DoltDb → Bool
  is_updating d = found_updating (m.find_status_condition d.status.conditions updated)
