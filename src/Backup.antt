-- ===== src/Backup.antt =====
-- api/v1alpha/backup_types.go and pkg/controller/backup/backup.go: a Backup, its status, its URL and
-- the loop that backs databases up. pkg/dolt/sql/backup.go: the steps for one database.
pub mod Reconcile
pub mod Retries
pub mod Complete
pub mod Credentials
pub mod Injected
pub mod Lifecycle
pub mod Parts
pub mod Refines
pub mod Unreachable
pub mod Terminates
use doltdb_operator.Prelude.{
  ℕ, Bool, true, false, List, [], ◌∷◌, ◌++◌, Option, none, some, Bytes, codes, leb, ◌*◌, is_empty,
  if◌then◌else◌, str_eq, deref,
}
use doltdb_operator.Effect.{
  Error, Requeue, message, Result, ok, err, Op, pure, fail, lift, ◌>>=◌, ◌>>◌, attempt, wrap,
}
use doltdb_operator.Api.Condition.{Condition, Meta}

-- `BackupPhase`; `unset` is the empty string.
pub data Phase : Type 0 where
  unset pending running completed failed : Phase

pub record S3Storage : Type 0 where
  pub bucket : Bytes
  pub prefix : Bytes
  pub dynamo_db_table : Bytes

-- `BackupStorage`: the remote URL of DoltHub, the path of a local backup.
pub record BackupStorage : Type 0 where
  pub s3 : Option S3Storage
  pub dolt_hub : Option Bytes
  pub local : Option Bytes

-- A Backup without its status. A negative limit acts as 0, since counts are not negative.
pub record Backup : Type 0 where
  pub name : Bytes
  pub doltdb_ref : Bytes
  pub storage : BackupStorage
  pub databases : List Bytes
  pub backoff_limit : Option ℕ

pub record BackupStatus : Type 0 where
  pub conditions : List Condition
  pub phase : Phase
  pub started_at : Option ℕ
  pub completed_at : Option ℕ
  pub error : Bytes
  pub retry_count : ℕ

abbrev pub is_completed : Phase → Bool
is_completed completed = true
is_completed _ = false

abbrev pub is_failed : Phase → Bool
is_failed failed = true
is_failed _ = false

abbrev pub is_running : Phase → Bool
is_running running = true
is_running _ = false

abbrev pub is_unset : Phase → Bool
is_unset unset = true
is_unset _ = false

abbrev pub get_backoff_limit : Backup → ℕ
get_backoff_limit b = deref b.backoff_limit 2

-- `ShouldRetry`: the delay in seconds, or none when the limit is exceeded.
unfoldable pub should_retry : ℕ → ℕ → Option ℕ
should_retry retry_count limit = if leb limit retry_count then none else some (retry_count * 30)

unfoldable pub build_s3_url : S3Storage → Bytes
build_s3_url s =
    let table = if is_empty s.dynamo_db_table then s.bucket else s.dynamo_db_table in
    let url = codes "aws://[" ++ table ++ codes ":" ++ s.bucket ++ codes "]" in
    if is_empty s.prefix then url else url ++ codes "/" ++ s.prefix

-- The stores in the order in which the code asks for them.
unfoldable pub build_backup_url : BackupStorage → Result Bytes
unfolding build_s3_url
build_backup_url s = first s.s3 s.dolt_hub s.local
  where
    first : Option S3Storage → Option Bytes → Option Bytes → Result Bytes
    first (some bucket) hub path = ok (build_s3_url bucket)
    first none (some url) path = ok url
    first none none (some path) = ok (codes "file://" ++ path)
    first none none none = err (message "no storage backend specified")

pub data Event : Type 0 where
  got listed resolved waited s3_ensured connected listed_databases : Event
  patched : BackupStatus → Event
  used : Bytes → Event
  added : Bytes → Bytes → Event
  synced : Bytes → Event

abbrev pub Trace : Type 0
Trace = List Event

-- What the controller reads of another Backup.
pub record Other : Type 0 where
  pub name : Bytes
  pub doltdb_ref : Bytes
  pub phase : Phase

-- The status in the memory of the controller, and that on the server.
pub record State : Type 0 where
  pub object : BackupStatus
  pub stored : BackupStatus
  pub trace : Trace

-- The first half of the SHA-256 of a text, and calls that answer as they like.
pub record Env : Type 0 where
  pub meta : Meta
  pub short_hash : Bytes → Bytes
  pub now : Trace → ℕ
  pub get_backup : Trace → Result (Unit {0})
  pub patch_backup : Trace → Result (Unit {0})
  pub list_backups : Trace → Result (List Other)
  pub resolve_doltdb : Trace → Result (Unit {0})
  -- `WaitForDoltDB`: an empty result when the DoltDB is ready.
  pub wait_for_doltdb : Trace → Result Requeue
  pub ensure_s3_env_vars : Trace → Result (Unit {0})
  pub new_client : Trace → Result (Unit {0})
  pub list_databases : Trace → Result (List Bytes)
  pub use_database : Trace → Bytes → Result (Unit {0})
  pub add_backup : Trace → Bytes → Bytes → Result (Unit {0})
  pub sync_backup : Trace → Bytes → Result (Unit {0})

unfoldable pub call : {A : Type 0} → Event → (Trace → Result A) → Op State A
call e answer s = let t = e ∷ s.trace in (answer t, record s { trace = t })

module _ (env : Env) where
  unfoldable pub stable_backup_name : Bytes → Bytes → Bytes
  stable_backup_name url database = codes "bk-" ++ database ++ codes "-" ++ env.short_hash url

  -- `BackupDatabase`.
  unfoldable pub backup_database : Bytes → Bytes → Bytes → Op State (Unit {0})
  unfolding call
  backup_database database backup_name url =
      wrap "error setting database '%s': %w"
        (call (used database) (λ t. env.use_database t database))
      >> (wrap "error adding backup for database '%s': %w"
            (call (added backup_name url) (λ t. env.add_backup t backup_name url))
          >> wrap "error syncing backup for database '%s': %w"
              (call (synced backup_name) (λ t. env.sync_backup t backup_name)))

  -- The loop of `Execute` over the databases.
  unfoldable pub back_up_all : Bytes → List Bytes → Op State (Unit {0})
  unfolding backup_database stable_backup_name
  back_up_all url [] = pure tt
  back_up_all url (d ∷ ds) =
      wrap "error backing up database '%s': %w" (backup_database d (stable_backup_name url d) url)
      >> back_up_all url ds

  abbrev pub databases_of : Backup → Op State (List Bytes)
  databases_of b =
      if is_empty b.databases
      then wrap "error listing databases: %w" (call listed_databases env.list_databases)
      else pure b.databases

  abbrev pub back_up_listed : Backup → List Bytes → Op State (Unit {0})
  back_up_listed b databases =
      if is_empty databases
      then pure tt
      else wrap "error building backup URL: %w" (lift (build_backup_url b.storage)) >>= λ url.
          back_up_all url databases

  -- `Execute`.
  unfoldable pub execute : Backup → Op State (Unit {0})
  unfolding build_backup_url back_up_all call
  execute b = databases_of b >>= λ databases. back_up_listed b databases
