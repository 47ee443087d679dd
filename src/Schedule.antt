-- ===== src/Schedule.antt =====
-- api/v1alpha/backupschedule_types.go, pkg/controller/backupschedule/backupschedule.go and
-- internal/controller/backupschedule_controller.go: the Backups that a schedule creates. Times and
-- delays are in nanoseconds here. The parser of cron expressions is an argument.
pub mod Due
pub mod Asks
pub mod Once
pub mod Faults
use doltdb_operator.Prelude.{
  ℕ, Bool, true, false, List, [], ◌∷◌, ◌++◌, Option, none, some, Bytes, codes, ltb, decimal, ◌-◌,
  ◌*◌, ◌/◌, if◌then◌else◌,
}
use doltdb_operator.Effect.{
  Error, not_found, already_exists, is_not_found, Requeue, nothing, after, is_zero, Result, ok, err,
  Op, pure, fail, message, lift, gets, modify, ◌>>=◌, ◌>>◌, attempt, wrap, stop_or,
}
use doltdb_operator.Api.Condition.{Condition, Meta}
use doltdb_operator.Conditions.{set_backup_schedule_created}
use doltdb_operator.Backup.{Backup, BackupStorage}

-- A BackupSchedule without its status; what only the containers of a backup use is left out.
pub record BackupSchedule : Type 0 where
  pub name : Bytes
  pub namespace : Bytes
  pub created_at : ℕ
  pub doltdb_ref : Bytes
  pub storage : BackupStorage
  pub schedule : Bytes
  pub databases : List Bytes
  pub suspend : Option Bool
  pub backoff_limit : Option ℕ

pub record ScheduleStatus : Type 0 where
  pub conditions : List Condition
  pub last_schedule_time : Option ℕ
  pub next_schedule_time : Option ℕ
  pub last_backup_ref : Bytes

-- `IsSuspended`.
abbrev pub is_suspended : Option Bool → Bool
is_suspended none = false
is_suspended (some b) = b

-- A Backup to create, with the namespace and the label that it gets.
pub record NewBackup : Type 0 where
  pub backup : Backup
  pub namespace : Bytes
  pub schedule_label : Bytes

pub data Event : Type 0 where
  got resolved waited : Event
  patched : ScheduleStatus → Event
  created : NewBackup → Event

abbrev pub Trace : Type 0
Trace = List Event

-- The status in the memory of the controller, and that on the server.
pub record State : Type 0 where
  pub object : ScheduleStatus
  pub stored : ScheduleStatus
  pub trace : Trace

-- `parse_standard` gives the function `Next` of the schedule, whose zero is the zero time.
pub record Env : Type 0 where
  pub meta : Meta
  pub parse_standard : Bytes → Result (ℕ → ℕ)
  pub now : Trace → ℕ
  pub set_controller_reference : BackupSchedule → Result (Unit {0})
  pub get_schedule : Trace → Result (Unit {0})
  pub resolve_doltdb : Trace → Result (Unit {0})
  -- `WaitForDoltDB`: an empty result when the DoltDB is ready.
  pub wait_for_doltdb : Trace → Result Requeue
  pub patch_schedule : Trace → Result (Unit {0})
  pub create_backup : Trace → Result (Unit {0})

unfoldable pub call : {A : Type 0} → Event → (Trace → Result A) → Op State A
call e answer s = let t = e ∷ s.trace in (answer t, record s { trace = t })

abbrev pub second : ℕ
second = 1000000000

-- `metav1.Time` on the server: whole seconds.
unfoldable pub to_seconds : ℕ → ℕ
to_seconds t = t / second * second

-- The seconds of the zero time of Unix.
abbrev pub unix_epoch : ℕ
unix_epoch = 62135596800

-- `Unix`, for times that are not before its zero.
unfoldable pub unix : ℕ → ℕ
unix t = t / second - unix_epoch

abbrev pub last_or : Option ℕ → ℕ → ℕ
last_or (some t) created_at = t
last_or none created_at = created_at

-- `LastScheduleTime`.
abbrev pub last_schedule_time_of : BackupSchedule → ScheduleStatus → ℕ
last_schedule_time_of b s = last_or s.last_schedule_time b.created_at

-- `ComputeRequeueAfter`, after its schedule is parsed.
abbrev pub requeue_after_next : ℕ → ℕ → ℕ
requeue_after_next next now = if ltb next now then 10 * second else next - now

-- What the patches change: the next time and the conditions, or the last time and the last Backup.
pub data Patch : Type 0 where
  of_next of_last : Patch

-- A merge patch sends what the patcher changed; the other fields on the server stay.
unfoldable pub merged : Patch → ScheduleStatus → ScheduleStatus → ScheduleStatus
merged of_next changed stored = record stored {
  conditions = changed.conditions;
  next_schedule_time = changed.next_schedule_time;
}
merged of_last changed stored = record stored {
  last_schedule_time = changed.last_schedule_time;
  last_backup_ref = changed.last_backup_ref;
}

abbrev pub patch_answer :
    Result (Unit {0}) → ScheduleStatus → ScheduleStatus → State → Result (Unit {0}) × State
patch_answer (ok a) changed sent s =
    (ok tt, record { object = sent; stored = sent; trace = patched sent ∷ s.trace })
patch_answer (err e) changed sent s =
    (err e, record s { object = changed; trace = patched sent ∷ s.trace })

-- `BuildBackup`, with its owner set.
unfoldable pub backup_of : BackupSchedule → ℕ → NewBackup
unfolding unix
backup_of b now = record {
  backup = record {
    name = b.name ++ codes "-" ++ decimal (unix now);
    doltdb_ref = b.doltdb_ref;
    storage = b.storage;
    databases = b.databases;
    backoff_limit = b.backoff_limit;
  };
  namespace = b.namespace;
  schedule_label = b.name;
}

module _ (env : Env) where
  -- `ComputeRequeueAfter`.
  unfoldable pub compute_requeue_after : Bytes → ℕ → ℕ → ℕ
  compute_requeue_after schedule last now = parsed (env.parse_standard schedule)
    where
      parsed : Result (ℕ → ℕ) → ℕ
      parsed (err e) = 60 * second
      parsed (ok next) = requeue_after_next (next last) now

  -- `PatchBackupScheduleStatus`.
  unfoldable pub patch_schedule_status :
      Patch → (ScheduleStatus → ScheduleStatus) → Op State (Unit {0})
  unfolding merged
  patch_schedule_status patch f s =
      let sent = merged patch (f s.object) s.stored in
      patch_answer (env.patch_schedule (patched sent ∷ s.trace)) (f s.object) sent s

  -- `BuildBackup`.
  unfoldable pub build_backup : BackupSchedule → ℕ → Result NewBackup
  unfolding backup_of
  build_backup b now = owned (env.set_controller_reference b)
    where
      owned : Result (Unit {0}) → Result NewBackup
      owned (err e) = err e
      owned (ok a) = ok (backup_of b now)

  unfoldable pub with_next : ℕ → ScheduleStatus → ScheduleStatus
  unfolding set_backup_schedule_created
  with_next next s = record s {
    next_schedule_time = some (to_seconds next);
    conditions = set_backup_schedule_created env.meta s.conditions;
  }

  unfoldable pub with_last : ℕ → Bytes → ScheduleStatus → ScheduleStatus
  unfolding to_seconds
  with_last now name s = record s {
    last_schedule_time = some (to_seconds now);
    last_backup_ref = name;
  }

  abbrev pub is_already_exists : Error → Bool
  is_already_exists already_exists = true
  is_already_exists _ = false

  -- The Backup is there: its creation is recorded.
  abbrev pub record_creation : BackupSchedule → ℕ → NewBackup → Op State Requeue
  record_creation b now new =
      wrap "error patching schedule status: %w"
        (patch_schedule_status of_last (with_last now new.backup.name))
      >> pure (after (compute_requeue_after b.schedule now now))

  abbrev pub not_created : BackupSchedule → ℕ → ℕ → Error → Op State Requeue
  not_created b last now e =
      if is_already_exists e
      then pure (after (compute_requeue_after b.schedule last now))
      else fail (message "error creating Backup '%s': %w")

  abbrev pub create_due : BackupSchedule → ℕ → ℕ → Op State Requeue
  create_due b last now = wrap "error building Backup: %w" (lift (build_backup b now)) >>= λ new.
      attempt (call (created new) env.create_backup) (λ _. record_creation b now new)
        (not_created b last now)

  abbrev pub create_if_due : BackupSchedule → ℕ → ℕ → ℕ → Op State Requeue
  create_if_due b last next now =
      if ltb now next
      then pure (after (compute_requeue_after b.schedule last now))
      else create_due b last now

  -- `Reconciler.Reconcile` of the package backupschedule.
  unfoldable pub reconcile_schedule : BackupSchedule → Op State Requeue
  unfolding patch_schedule_status with_next with_last build_backup compute_requeue_after call
  reconcile_schedule b = do
    now ← gets (λ s. env.now s.trace)
    last ← gets (λ s. last_schedule_time_of b s.object)
    next ← wrap "error parsing cron schedule '%s': %w" (lift (env.parse_standard b.schedule))
    wrap "error patching schedule status: %w"
        (patch_schedule_status of_next (with_next (next last)))
    create_if_due b last (next last) now

  -- `BackupScheduleReconciler.Reconcile`.
  unfoldable pub reconcile_backup_schedule : BackupSchedule → Op State Requeue
  unfolding reconcile_schedule call
  reconcile_backup_schedule b =
      attempt (call got env.get_schedule >> modify (λ s. record s { object = s.stored }))
        (λ _.
          if is_suspended b.suspend
          then pure nothing
          else wrap "error resolving DoltDB: %w" (call resolved env.resolve_doltdb)
            >> stop_or (call waited env.wait_for_doltdb) (reconcile_schedule b))
        (λ e. if is_not_found e then pure nothing else fail e)
