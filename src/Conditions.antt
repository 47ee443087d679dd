-- ===== src/Conditions.antt =====
-- pkg/conditions: the setters of status conditions. A `Conditioner` is its list of conditions, and
-- `SetCondition` is `meta.SetStatusCondition`.
pub mod States
use doltdb_operator.Prelude.{
  ℕ, Bool, true, false, List, [], ◌∷◌, ◌++◌, Option, none, some, Bytes, codes, ◌==◌, not, ◌||◌,
  if◌then◌else◌,
}
use doltdb_operator.Effect.{Error, not_found}
use doltdb_operator.Api.Condition.{
  Condition, ConditionType, ConditionStatus, ConditionReason, Meta, condition_true, condition_false,
  ready, primary_switched, complete, storage_resized, updated, snapshot_created, backup_completed,
  backup_schedule_created, snapshot_cron_job_created, stateful_set_not_ready, stateful_set_ready,
  switch_primary, resizing_storage, wait_storage_resize, storage_was_resized, pending_update,
  updating, was_updated, created, healthy, failed, backup_pending, backup_running,
  backup_was_completed, backup_failed, schedule_created,
}
use doltdb_operator.Api.DoltDb.{DoltDb, primary_pod_index}
use doltdb_operator.Api.Status.{is_updating, has_pending_update}
use doltdb_operator.Naming.{pod_name}

abbrev Conditions : Type 0
Conditions = List Condition

-- The two numbers of a StatefulSet's status that the code reads.
pub record StsStatus : Type 0 where
  pub replicas : ℕ
  pub ready_replicas : ℕ

abbrev make : ConditionType → ConditionStatus → ConditionReason → Bytes → Condition
make t s r text = record { kind = t; status = s; reason = r; message = text }

-- The guard that two of the setters share.
abbrev pub sts_not_ready : StsStatus → Bool
sts_not_ready sts = sts.replicas == 0 || not (sts.ready_replicas == sts.replicas)

module _ (m : Meta) where
  unfoldable pub set :
      ConditionType → ConditionStatus → ConditionReason → Bytes → Conditions → Conditions
  set t s r text cs = m.set_status_condition cs (make t s r text)

  -- backup.go
  unfoldable pub set_backup_pending : Conditions → Conditions
  unfolding set
  set_backup_pending cs = set ready condition_false backup_pending (codes "Backup pending") cs

  unfoldable pub set_backup_running : Conditions → Conditions
  unfolding set
  set_backup_running cs = set ready condition_false backup_running (codes "Backup running") cs

  unfoldable pub set_backup_completed : Conditions → Conditions
  unfolding set
  set_backup_completed cs =
      set backup_completed condition_true backup_was_completed (codes "Backup completed")
        (set ready condition_true backup_was_completed (codes "Backup completed") cs)

  unfoldable pub set_backup_failed : Bytes → Conditions → Conditions
  unfolding set
  set_backup_failed text cs =
      set backup_completed condition_false backup_failed text
        (set ready condition_false backup_failed text cs)

  unfoldable pub set_backup_schedule_created : Conditions → Conditions
  unfolding set
  set_backup_schedule_created cs =
      set backup_schedule_created condition_true schedule_created (codes "Backup schedule created")
        (set ready condition_true schedule_created (codes "Backup schedule active") cs)

  -- complete.go
  unfoldable pub set_complete_failed_with_message : Bytes → Conditions → Conditions
  unfolding set
  set_complete_failed_with_message text cs = set complete condition_false failed text cs

  -- ready.go
  unfoldable pub set_ready_healthy : Conditions → Conditions
  unfolding set
  set_ready_healthy cs = set ready condition_true healthy (codes "Healthy") cs

  unfoldable pub set_ready_unhealthy_with_error : Bytes → Conditions → Conditions
  unfolding set
  set_ready_unhealthy_with_error text cs = set ready condition_false healthy text cs

  unfoldable pub set_ready_created_with_message : Bytes → Conditions → Conditions
  unfolding set
  set_ready_created_with_message text cs = set ready condition_true created text cs

  unfoldable pub set_ready_created : Conditions → Conditions
  unfolding set_ready_created_with_message
  set_ready_created cs = set_ready_created_with_message (codes "Created") cs

  unfoldable pub set_ready_failed_with_message : Bytes → Conditions → Conditions
  unfolding set
  set_ready_failed_with_message text cs = set ready condition_false failed text cs

  unfoldable pub set_ready_failed : Conditions → Conditions
  unfolding set_ready_failed_with_message
  set_ready_failed cs = set_ready_failed_with_message (codes "Failed") cs

  unfoldable pub set_ready_with_stateful_set : StsStatus → Conditions → Conditions
  unfolding set
  set_ready_with_stateful_set sts cs =
      if sts_not_ready sts
      then set ready condition_false stateful_set_not_ready (codes "Not ready") cs
      else set ready condition_true stateful_set_ready (codes "Running") cs

  unfoldable pub set_ready_with_dolt_db : StsStatus → DoltDb → Conditions → Conditions
  unfolding set
  set_ready_with_dolt_db sts doltdb cs =
      if is_updating m doltdb
      then set ready condition_false updating (codes "Updating") cs
      else if sts_not_ready sts
      then set ready condition_false stateful_set_not_ready (codes "Not ready") cs
      else if has_pending_update m doltdb
      then set ready condition_true pending_update (codes "Pending update") cs
      else set ready condition_true stateful_set_ready (codes "Running") cs

  unfoldable pub set_ready_storage_resizing : Conditions → Conditions
  unfolding set
  set_ready_storage_resizing cs =
      set storage_resized condition_false resizing_storage (codes "Resizing storage")
        (set ready condition_false resizing_storage (codes "Resizing storage") cs)

  unfoldable pub set_ready_waiting_storage_resize : Conditions → Conditions
  unfolding set
  set_ready_waiting_storage_resize cs =
      set storage_resized condition_false wait_storage_resize (codes "Waiting for storage resize")
        (set ready condition_false wait_storage_resize (codes "Waiting for storage resize") cs)

  unfoldable pub set_ready_storage_resized : Conditions → Conditions
  unfolding set
  set_ready_storage_resized cs =
      set storage_resized condition_true storage_was_resized (codes "Storage resized") cs

  unfoldable pub set_ready_with_snapshot_job_created : Conditions → Conditions
  unfolding set
  set_ready_with_snapshot_job_created cs =
      set snapshot_created condition_true snapshot_cron_job_created
        (codes "Snapshot cron job created") cs

  -- replication.go
  abbrev switching_primary_message : DoltDb → Bytes
  switching_primary_message d =
      codes "Switching primary to '" ++ (pod_name d.name (primary_pod_index d) ++ codes "'")

  unfoldable pub set_primary_switching : DoltDb → Conditions → Conditions
  unfolding set
  set_primary_switching d cs =
      set primary_switched condition_false switch_primary (switching_primary_message d)
        (set ready condition_false switch_primary (switching_primary_message d) cs)

  unfoldable pub set_primary_switched : Conditions → Conditions
  unfolding set
  set_primary_switched cs =
      set primary_switched condition_true switch_primary (codes "Switchover complete") cs

  -- updated.go
  unfoldable pub set_pending_update : Conditions → Conditions
  unfolding set
  set_pending_update cs = set updated condition_false pending_update (codes "Pending update") cs

  unfoldable pub set_updating : Conditions → Conditions
  unfolding set
  set_updating cs = set updated condition_false updating (codes "Updating") cs

  unfoldable pub set_updated : Conditions → Conditions
  unfolding set
  set_updated cs = set updated condition_true was_updated (codes "Updated") cs

  -- condition.go: `PatcherWithError`, `PatcherHealthy` and the two `PatcherRefResolver`.
  unfoldable pub patcher_with_error : Option Error → Conditions → Conditions
  patcher_with_error none cs = set_ready_created cs
  patcher_with_error (some e) cs = set_ready_failed cs
