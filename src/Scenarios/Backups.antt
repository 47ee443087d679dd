-- ===== src/Scenarios/Backups.antt =====
-- The theorems on Backups at a concrete Backup.
use doltdb_operator.Prelude.{ℕ, [], ◌∷◌, none, some, codes, ◌≡◌, ◌⊎◌, refl, arith}
use doltdb_operator.Effect.{Result, ok, err, conflict, nothing, ◌>>=◌, attempt}
use doltdb_operator.Backup.{
  Env, State, Backup, BackupStatus, Phase, unset, pending, running, completed, failed, Trace,
  patched,
}
use doltdb_operator.Backup.Reconcile.{
  execute_backup, handle_failure, reconcile_backup, failed_status,
}
use doltdb_operator.Backup.Retries.{
  Retried, GivenUp, handle_failure-Retried, refused_failure_is_lost,
}
use doltdb_operator.Backup.Complete.{Executed, execute_backup-Complete}
use doltdb_operator.Backup.Lifecycle.{Reach}
use doltdb_operator.Backup.Refines.{reconcile_follows_lifecycle}
use doltdb_operator.Scenarios.{list_meta}
use doltdb_operator.Backup.Unreachable.{IsUnreachable}
use doltdb_operator.Backup.Terminates.{passes, limit_ends_retries}

-- Two databases, saved on disk.
abbrev backup : Backup
backup = record {
  name = codes "nightly";
  doltdb_ref = codes "db";
  storage = record { s3 = none; dolt_hub = none; local = some (codes "/backups") };
  databases = codes "app" ∷ codes "audit" ∷ [];
  backoff_limit = none;
}

abbrev answering : Env
answering = record {
  meta = list_meta;
  short_hash = λ url. codes "00";
  now = λ t. 5;
  get_backup = λ t. ok tt;
  patch_backup = λ t. ok tt;
  list_backups = λ t. ok [];
  resolve_doltdb = λ t. ok tt;
  wait_for_doltdb = λ t. ok nothing;
  ensure_s3_env_vars = λ t. ok tt;
  new_client = λ t. ok tt;
  list_databases = λ t. ok [];
  use_database = λ t d. ok tt;
  add_backup = λ t name url. ok tt;
  sync_backup = λ t name. ok tt;
}

abbrev status_in : Phase → ℕ → BackupStatus
status_in phase retry_count = record {
  conditions = [];
  phase = phase;
  started_at = none;
  completed_at = none;
  error = [];
  retry_count = retry_count;
}

abbrev state_in : Phase → ℕ → State
state_in phase retry_count = record {
  object = status_in phase retry_count;
  stored = status_in phase retry_count;
  trace = [];
}

-- The patch that records a failure is refused.
abbrev refuse : Trace → Result (Unit {0})
refuse (patched st ∷ t) = elim st.phase [ failed ↦ err conflict | _ ↦ ok tt ]
refuse _ = ok tt

abbrev refusing : Env
refusing = record answering { patch_backup = refuse }

succeeds : (execute_backup answering backup (state_in running 0)).0 ≡ ok tt
unfolding execute_backup ◌>>=◌ attempt
succeeds = refl

execute_backup-Complete_example :
    let r = execute_backup answering backup (state_in running 0) in
    (r.1.stored.phase ≡ completed)
    × ((before : Trace) × (after : Trace) × Executed answering backup before after
        × (r.1.trace ≡ patched r.1.stored ∷ after))
execute_backup-Complete_example =
    execute_backup-Complete answering backup (state_in running 0) refl succeeds

handle_failure-Retried_example :
    let r = handle_failure answering backup (state_in running 0) in
    (Retried answering backup (state_in running 0) r
      ⊎ GivenUp answering backup (state_in running 0) r)
    × (r.1.stored.retry_count ≡ 1)
handle_failure-Retried_example =
    handle_failure-Retried answering backup (state_in running 0) (λ t. refl)

refused_failure_is_lost_example :
    let r = handle_failure refusing backup (state_in running 1) in
    (r.0 ≡ ok nothing) × (r.1.stored ≡ status_in running 2)
unfolding failed_status
refused_failure_is_lost_example =
    refused_failure_is_lost refusing backup (state_in running 1) conflict (omega arith) refl refl

reconcile_follows_lifecycle_example :
    Reach pending (reconcile_backup refusing backup (state_in pending 0)).1.stored.phase
reconcile_follows_lifecycle_example =
    reconcile_follows_lifecycle refusing backup (state_in pending 0)

-- The server refuses every connection.
abbrev unreachable : Env
unreachable = record answering { new_client = λ t. err conflict }

cannot_connect : IsUnreachable unreachable backup
cannot_connect = record {
  found = λ t. refl;
  accepted = λ t. refl;
  alone = λ t. refl;
  doltdb_found = λ t. refl;
  ready = λ t. refl;
  error = λ t. conflict;
  refused = λ t. refl;
}

limit_ends_retries_example :
    let s = state_in unset 0 in
    ((reconcile_backup unreachable backup (passes unreachable backup 1 s)).0 ≡ ok nothing)
    × ((passes unreachable backup 3 (passes unreachable backup 2 s)).stored.phase ≡ failed)
limit_ends_retries_example =
    limit_ends_retries unreachable backup cannot_connect (state_in unset 0) refl refl 3
