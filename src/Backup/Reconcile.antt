-- ===== src/Backup/Reconcile.antt =====
-- internal/controller/backup_controller.go: the phases of a Backup, with its retries.
use doltdb_operator.Prelude.{
  ℕ, Bool, suc, ◌∷◌, Option, none, some, Bytes, codes, any, not, ◌&&◌, ◌||◌, if◌then◌else◌, str_eq,
}
use doltdb_operator.Effect.{
  is_not_found, Requeue, nothing, after, is_zero, Result, ok, err, Op, pure, fail, gets, modify,
  ◌>>=◌, ◌>>◌, attempt, wrap,
}
use doltdb_operator.Conditions.{
  set_backup_pending, set_backup_running, set_backup_completed, set_backup_failed,
}
use doltdb_operator.Backup.{
  Env, State, Backup, S3Storage, BackupStatus, Other, pending, running, completed, failed,
  is_completed, is_failed, is_running, is_unset, get_backoff_limit, should_retry, got, listed,
  resolved, waited, s3_ensured, connected, patched, call, execute,
}

-- What a merge patch sends: the fields that the patcher changes. On the server the others stay.
pub data Patch : Type 0 where
  -- The phase, its conditions, its times and its error; or the number of retries.
  of_phase of_retries : Patch

-- The time of the start is sent only where the patcher set it: where it was there, it is not changed.
abbrev pub sent_start : Option ℕ → Option ℕ → Option ℕ → Option ℕ
sent_start none (some now) stored = some now
sent_start none none stored = stored
sent_start (some started) changed stored = stored

-- The status in memory before the patcher and after it, and that on the server.
unfoldable pub merged : Patch → BackupStatus → BackupStatus → BackupStatus → BackupStatus
merged of_phase before changed stored = record changed {
  retry_count = stored.retry_count;
  started_at = sent_start before.started_at changed.started_at stored.started_at;
}
merged of_retries before changed stored = record stored { retry_count = changed.retry_count }

-- The server's answer replaces the status in memory; where it refuses, the change in memory stays.
abbrev pub patch_answer :
    Result (Unit {0}) → BackupStatus → BackupStatus → State → Result (Unit {0}) × State
patch_answer (ok a) changed sent s =
    (ok tt, record { object = sent; stored = sent; trace = patched sent ∷ s.trace })
patch_answer (err e) changed sent s =
    (err e, record s { object = changed; trace = patched sent ∷ s.trace })

abbrev or_now : Option ℕ → ℕ → ℕ
or_now none now = now
or_now (some started) now = started

-- One more retry, for counts below the largest int32.
abbrev pub count_retry : BackupStatus → BackupStatus
count_retry s = record s { retry_count = suc s.retry_count }

module _ (env : Env) where
  -- `PatchBackupStatus`: the memory is changed even where the patch fails.
  unfoldable pub patch_backup_status : Patch → (BackupStatus → BackupStatus) → Op State (Unit {0})
  unfolding merged
  patch_backup_status patch f s =
      let sent = merged patch s.object (f s.object) s.stored in
      patch_answer (env.patch_backup (patched sent ∷ s.trace)) (f s.object) sent s

  unfoldable pub pending_status : BackupStatus → BackupStatus
  unfolding set_backup_pending
  pending_status s = record s {
    phase = pending;
    conditions = set_backup_pending env.meta s.conditions;
  }

  unfoldable pub running_status : ℕ → BackupStatus → BackupStatus
  unfolding set_backup_running
  running_status now s = record s {
    phase = running;
    started_at = some (or_now s.started_at now);
    conditions = set_backup_running env.meta s.conditions;
  }

  unfoldable pub completed_status : ℕ → BackupStatus → BackupStatus
  unfolding set_backup_completed
  completed_status now s = record s {
    phase = completed;
    completed_at = some now;
    conditions = set_backup_completed env.meta s.conditions;
  }

  unfoldable pub failed_status : ℕ → Bytes → BackupStatus → BackupStatus
  unfolding set_backup_failed
  failed_status now text s = record s {
    phase = failed;
    completed_at = some now;
    error = text;
    conditions = set_backup_failed env.meta text s.conditions;
  }

  -- `ensurePending`.
  unfoldable pub ensure_pending : Op State (Unit {0})
  unfolding pending_status patch_backup_status
  ensure_pending = gets (λ s. is_unset s.object.phase) >>= λ first.
      if first then patch_backup_status of_phase pending_status else pure tt

  -- `ensureReady`.
  unfoldable pub ensure_ready : Op State Requeue
  unfolding call
  ensure_ready =
      wrap "error resolving DoltDB: %w" (call resolved env.resolve_doltdb)
      >> call waited env.wait_for_doltdb

  abbrev pub blocks : Backup → Other → Bool
  blocks b o =
      not (str_eq o.name b.name) && (str_eq o.doltdb_ref b.doltdb_ref && is_running o.phase)

  -- `hasRunningBackup`.
  unfoldable pub has_running_backup : Backup → Op State Bool
  unfolding call
  has_running_backup b =
      wrap "error listing backups: %w" (call listed env.list_backups) >>= λ others.
      pure (any (blocks b) others)

  abbrev pub ensure_s3 : Option S3Storage → Op State (Unit {0})
  ensure_s3 none = pure tt
  ensure_s3 (some s3) =
      wrap "error ensuring S3 credentials: %w" (call s3_ensured env.ensure_s3_env_vars)

  -- `executeBackup`.
  unfoldable pub execute_backup : Backup → Op State (Unit {0})
  unfolding patch_backup_status running_status completed_status execute call
  execute_backup b = do
    started ← gets (λ s. env.now s.trace)
    wrap "error setting running status: %w" (patch_backup_status of_phase (running_status started))
    ensure_s3 b.storage.s3
    wrap "error connecting to DoltDB: %w" (call connected env.new_client)
    execute env b
    ended ← gets (λ s. env.now s.trace)
    patch_backup_status of_phase (completed_status ended)

  -- `_ = patch…`: the error is dropped.
  abbrev pub give_up : Op State Requeue
  give_up = gets (λ s. env.now s.trace) >>= λ now.
      attempt
        (patch_backup_status of_phase
          (failed_status now (codes "backoff limit exceeded after %d retries: %v")))
        (λ _. pure nothing) (λ _. pure nothing)

  abbrev pub retry_or_give_up : Option ℕ → Op State Requeue
  retry_or_give_up none = give_up
  retry_or_give_up (some seconds) = pure (after seconds)

  -- `handleFailure`.
  unfoldable pub handle_failure : Backup → Op State Requeue
  unfolding patch_backup_status failed_status should_retry
  handle_failure b =
      attempt (patch_backup_status of_retries count_retry) pure (λ _. pure tt)
      >> (gets (λ s. s.object.retry_count) >>= λ count.
          retry_or_give_up (should_retry count (get_backoff_limit b)))

  abbrev pub run : Backup → Op State Requeue
  run b = attempt (execute_backup b) (λ _. pure nothing) (λ _. handle_failure b)

  abbrev pub run_alone : Backup → Op State Requeue
  run_alone b = has_running_backup b >>= λ blocked. if blocked then pure (after 30) else run b

  abbrev pub reconcile_found : Backup → Op State Requeue
  reconcile_found b =
      gets (λ s. is_completed s.object.phase || is_failed s.object.phase) >>= λ over.
      if over
      then pure nothing
      else (ensure_pending >> (ensure_ready >>= λ r. if is_zero r then run_alone b else pure r))

  -- `Get` fills the memory with the status on the server.
  abbrev pub fetch : Op State (Unit {0})
  fetch = call got env.get_backup >> modify (λ s. record s { object = s.stored })

  -- `Reconcile`.
  unfoldable pub reconcile_backup : Backup → Op State Requeue
  unfolding ensure_pending ensure_ready has_running_backup execute_backup handle_failure call
  reconcile_backup b =
      attempt fetch (λ _. reconcile_found b) (λ e. if is_not_found e then pure nothing else fail e)
