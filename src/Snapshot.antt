-- ===== src/Snapshot.antt =====
-- internal/controller/snapshot_controller.go and pkg/controller/volumesnapshot/volumesnapshot.go: a
-- CronJob that takes snapshots for each volume of a DoltDB. The builders and the writer of YAML are
-- arguments.
pub mod Reported
use doltdb_operator.Prelude.{
  ℕ, Bool, true, false, List, [], ◌∷◌, ◌++◌, Option, none, some, Bytes, codes, if◌then◌else◌,
}
use doltdb_operator.Effect.{
  Error, is_not_found, panic, message, Requeue, nothing, is_zero, Result, ok, err, Op, pure, fail,
  lift, modify, ◌>>=◌, ◌>>◌, attempt, wrap,
}
use doltdb_operator.Api.Condition.{Condition, Meta}
use doltdb_operator.Conditions.{
  set_ready_with_snapshot_job_created, set_ready_failed_with_message, patcher_with_error,
}

-- A Snapshot without its status.
pub record Snapshot : Type 0 where
  pub name : Bytes
  pub namespace : Bytes
  pub doltdb_ref : Bytes
  pub frequency_schedule : Option Bytes

-- What is reconciled of a ConfigMap and of a CronJob.
pub record ConfigMap : Type 0 where
  pub name : Bytes
  pub text : Bytes

pub record CronJob : Type 0 where
  pub name : Bytes
  pub config_map : Bytes
  pub schedule : Bytes

pub data Event : Type 0 where
  got resolved waited listed_pvcs : Event
  patched_status : List Condition → Event
  got_config_map got_cron_job : Bytes → Event
  created_config_map patched_config_map : ConfigMap → Event
  created_cron_job patched_cron_job : CronJob → Event

abbrev pub Trace : Type 0
Trace = List Event

-- The conditions in memory and on the server.
pub record State : Type 0 where
  pub object : List Condition
  pub stored : List Condition
  pub trace : Trace

pub record Env : Type 0 where
  pub meta : Meta
  pub get_snapshot : Trace → Result (Unit {0})
  pub patch_status : Trace → Result (Unit {0})
  pub resolve_doltdb : Trace → Result (Unit {0})
  -- `WaitForDoltDB`: an empty result when the DoltDB is ready.
  pub wait_for_doltdb : Trace → Result Requeue
  pub list_pvcs : Trace → Result (List Bytes)
  -- The text of the VolumeSnapshot of a claim, and whether a built object gets its owner.
  pub snapshot_yaml : Bytes → Result Bytes
  pub build_config_map : ConfigMap → Result (Unit {0})
  pub build_cron_job : CronJob → Result (Unit {0})
  pub parse_standard : Bytes → Result (Unit {0})
  pub get_config_map : Trace → Bytes → Result (Unit {0})
  pub create_config_map : Trace → ConfigMap → Result (Unit {0})
  pub patch_config_map : Trace → ConfigMap → Result (Unit {0})
  pub get_cron_job : Trace → Bytes → Result (Unit {0})
  pub create_cron_job : Trace → CronJob → Result (Unit {0})
  pub patch_cron_job : Trace → CronJob → Result (Unit {0})

unfoldable pub call : {A : Type 0} → Event → (Trace → Result A) → Op State A
call e answer s = let t = e ∷ s.trace in (answer t, record s { trace = t })

-- `ConfigMapKey` and `CronJobKey`: the name of the claim alone.
abbrev pub config_map_key : Bytes → Bytes
config_map_key pvc = pvc ++ codes "-cm"

abbrev pub cron_job_key : Bytes → Bytes
cron_job_key pvc = pvc ++ codes "-job"

abbrev pub patch_answer : Result (Unit {0}) → List Condition → State → Result (Unit {0}) × State
patch_answer (ok a) changed s =
    (ok tt, record { object = changed; stored = changed; trace = patched_status changed ∷ s.trace })
patch_answer (err e) changed s =
    (err e, record s { object = changed; trace = patched_status changed ∷ s.trace })

-- `*FrequencySchedule`, which panics without a schedule.
abbrev pub schedule_of : Option Bytes → Result Bytes
schedule_of none = err panic
schedule_of (some schedule) = ok schedule

abbrev pub is_panic : Error → Bool
is_panic panic = true
is_panic _ = false

module _ (env : Env) where
  -- `PatchSnapshotStatus` and `PatchStatus`.
  unfoldable pub patch_conditions : (List Condition → List Condition) → Op State (Unit {0})
  patch_conditions f s =
      let changed = f s.object in
      patch_answer (env.patch_status (patched_status changed ∷ s.trace)) changed s

  -- `buildOrPatchConfigMap`.
  unfoldable pub build_or_patch_config_map : ConfigMap → Op State (Unit {0})
  unfolding call
  build_or_patch_config_map m =
      wrap "error building ConfigMap: %v" (lift (env.build_config_map m))
      >> attempt (call (got_config_map m.name) (λ t. env.get_config_map t m.name))
          (λ found.
            wrap "error patching ConfigMap: %v"
              (call (patched_config_map m) (λ t. env.patch_config_map t m)))
          (λ e.
            if is_not_found e
            then wrap "error creating ConfigMap: %v"
                (call (created_config_map m) (λ t. env.create_config_map t m))
            else fail (message "error getting ConfigMap: %v"))

  -- `buildOrPatchCronJob`.
  unfoldable pub build_or_patch_cron_job : CronJob → Op State (Unit {0})
  unfolding call
  build_or_patch_cron_job j =
      wrap "error building cronJob: %v" (lift (env.build_cron_job j))
      >> attempt (call (got_cron_job j.name) (λ t. env.get_cron_job t j.name))
          (λ found.
            wrap "error patching CronJob: %v"
              (call (patched_cron_job j) (λ t. env.patch_cron_job t j)))
          (λ e.
            if is_not_found e
            then wrap "error creating CronJob: %v"
                (call (created_cron_job j) (λ t. env.create_cron_job t j))
            else fail (message "error getting CronJob: %v"))

  -- One claim of the loop: the ConfigMap is written before the schedule is parsed.
  unfoldable pub reconcile_pvc : Snapshot → Bytes → Op State (Unit {0})
  unfolding build_or_patch_config_map build_or_patch_cron_job
  reconcile_pvc snapshot pvc = do
    text ← lift (env.snapshot_yaml pvc)
    build_or_patch_config_map (record { name = config_map_key pvc; text = text })
    schedule ← lift (schedule_of snapshot.frequency_schedule)
    wrap "invalid cron expression for FrequencySchedule: %v" (lift (env.parse_standard schedule))
    build_or_patch_cron_job
        (record { name = cron_job_key pvc; config_map = config_map_key pvc; schedule = schedule })

  unfoldable pub reconcile_pvcs : Snapshot → List Bytes → Op State (Unit {0})
  unfolding reconcile_pvc
  reconcile_pvcs snapshot [] = pure tt
  reconcile_pvcs snapshot (pvc ∷ pvcs) = reconcile_pvc snapshot pvc >> reconcile_pvcs snapshot pvcs

  -- `Reconciler.Reconcile` of the package volumesnapshot.
  unfoldable pub reconcile_volumes : Snapshot → Op State (Unit {0})
  unfolding reconcile_pvcs call
  reconcile_volumes snapshot =
      wrap "error getting PVC for doltdb: %v" (call listed_pvcs env.list_pvcs) >>= λ pvcs.
      reconcile_pvcs snapshot pvcs

  abbrev pub mark_created : Op State (Unit {0})
  mark_created =
      wrap "error patching status: %v"
        (patch_conditions (set_ready_with_snapshot_job_created env.meta))

  -- A failure is returned after its condition is patched, whatever becomes of that patch.
  abbrev pub fail_with : (List Condition → List Condition) → Error → Op State Requeue
  fail_with patcher e =
      attempt (wrap "error patching Snapshot status: %v" (patch_conditions patcher)) (λ _. fail e)
        (λ _. fail e)

  abbrev pub reconcile_ready : Snapshot → Op State Requeue
  reconcile_ready snapshot =
      attempt (reconcile_volumes snapshot) (λ _. mark_created >> pure nothing)
        (λ e.
          if is_panic e
          then fail e
          else fail_with
              (set_ready_failed_with_message env.meta (codes "Error creating snapshot %s: %v")) e)

  abbrev pub wait_and_reconcile : Snapshot → Op State Requeue
  wait_and_reconcile snapshot =
      attempt (call waited env.wait_for_doltdb)
        (λ r. if is_zero r then reconcile_ready snapshot else pure r)
        (λ e.
          fail_with (patcher_with_error env.meta (some e)) (message "error waiting for DoltDB: %v"))

  abbrev pub reconcile_found : Snapshot → Op State Requeue
  reconcile_found snapshot =
      mark_created
      >> (wrap "error getting DoltDB: %v" (call resolved env.resolve_doltdb)
          >> wait_and_reconcile snapshot)

  -- `SnapshotReconciler.Reconcile`.
  unfoldable pub reconcile_snapshot : Snapshot → Op State Requeue
  unfolding patch_conditions reconcile_volumes call
  reconcile_snapshot snapshot =
      attempt (call got env.get_snapshot >> modify (λ s. record s { object = s.stored }))
        (λ _. reconcile_found snapshot) (λ e. if is_not_found e then pure nothing else fail e)
