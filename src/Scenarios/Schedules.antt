-- ===== src/Scenarios/Schedules.antt =====
-- The theorems on BackupSchedules at a concrete schedule.
use doltdb_operator.Prelude.{
  ℕ, [], ◌∷◌, none, some, codes, is_empty, ◌≡◌, ◌≤◌, ◌⊎◌, refl, arith, ◌+◌, ◌*◌, ◌/◌, if◌then◌else◌,
}
use doltdb_operator.Effect.{Result, ok, err, conflict, nothing, after, message, ◌>>=◌, attempt}
use doltdb_operator.Schedule.{
  BackupSchedule, ScheduleStatus, State, Env, Trace, patched, second, unix_epoch, to_seconds,
  backup_of, merged, with_next, with_last, reconcile_schedule,
}
use doltdb_operator.Schedule.Due.{creations, IsDue, asks_for_at_most_one}
use doltdb_operator.Schedule.Once.{created_once_until_next}
use doltdb_operator.Schedule.Faults.{
  read_again, unsatisfiable_schedule_never_rests, unrecorded_backup_is_repeated,
}
use doltdb_operator.Schedule.Asks.{asked_at, planned, recorded, sent_to}
use doltdb_operator.Scenarios.{list_meta}

abbrev hour : ℕ
hour = 3600 * second

abbrev at_hour : ℕ → ℕ
at_hour h = unix_epoch * second + h * hour

-- At the start of each hour.
abbrev hourly : BackupSchedule
hourly = record {
  name = codes "hourly";
  namespace = codes "default";
  created_at = at_hour 1;
  doltdb_ref = codes "db";
  storage = record { s3 = none; dolt_hub = none; local = some (codes "/backups") };
  schedule = codes "0 * * * *";
  databases = [];
  suspend = none;
  backoff_limit = none;
}

abbrev next_hour : ℕ → ℕ
next_hour t = (t / hour + 1) * hour

abbrev never : ℕ → ℕ
never t = 0

-- Five seconds pass after the first call.
abbrev clock : Trace → ℕ
clock [] = at_hour 3
clock (e ∷ t) = at_hour 3 + 5 * second

abbrev answering : Env
answering = record {
  meta = list_meta;
  parse_standard = λ text. ok next_hour;
  now = clock;
  set_controller_reference = λ b. ok tt;
  get_schedule = λ t. ok tt;
  resolve_doltdb = λ t. ok tt;
  wait_for_doltdb = λ t. ok nothing;
  patch_schedule = λ t. ok tt;
  create_backup = λ t. ok tt;
}

abbrev unsatisfiable : Env
unsatisfiable = record answering { parse_standard = λ text. ok never }

-- The patch that records a Backup is refused.
abbrev refuse : Trace → Result (Unit {0})
refuse (patched st ∷ t) = if is_empty st.last_backup_ref then ok tt else err conflict
refuse _ = ok tt

abbrev refusing : Env
refusing = record answering { patch_schedule = refuse }

abbrev fresh_status : ScheduleStatus
fresh_status = record {
  conditions = [];
  last_schedule_time = none;
  next_schedule_time = none;
  last_backup_ref = [];
}

abbrev fresh : State
fresh = record { object = fresh_status; stored = fresh_status; trace = [] }

abbrev recorded_at : ℕ → State
recorded_at t =
    let st = record fresh_status { last_schedule_time = some t } in
    record { object = st; stored = st; trace = [] }

asks_for_at_most_one_example :
    let asked = creations (reconcile_schedule refusing hourly fresh).1.trace in
    (asked ≡ [])
    ⊎ (IsDue refusing hourly (at_hour 1) (at_hour 3) × (asked ≡ backup_of hourly (at_hour 3) ∷ []))
asks_for_at_most_one_example = asks_for_at_most_one refusing hourly fresh

is_recorded :
    some (to_seconds (at_hour 3))
    ≡ (reconcile_schedule answering hourly fresh).1.stored.last_schedule_time
unfolding reconcile_schedule ◌>>=◌ attempt merged with_last
is_recorded = refl

created_once_until_next_example :
    (creations (reconcile_schedule answering hourly fresh).1.trace
      ≡ backup_of hourly (at_hour 3) ∷ [])
    × ((reconcile_schedule answering hourly fresh).1.stored.last_schedule_time
        ≡ some (to_seconds (at_hour 3)))
    × (creations
          (reconcile_schedule answering hourly (recorded_at (to_seconds (at_hour 3)))).1.trace
        ≡ [])
unfolding to_seconds
created_once_until_next_example =
    created_once_until_next answering hourly fresh next_hour refl refl (λ t. refl) (λ t. refl)
      (ground arith) (recorded_at (to_seconds (at_hour 3))) is_recorded (ground arith)

unsatisfiable_schedule_never_rests_example :
    let y = reconcile_schedule unsatisfiable hourly fresh in
    (y.0 ≡ ok (after (10 * second))) × (creations y.1.trace ≡ backup_of hourly (at_hour 3) ∷ [])
unsatisfiable_schedule_never_rests_example =
    unsatisfiable_schedule_never_rests unsatisfiable hourly fresh never refl (λ t. refl)
      (ground arith) (λ t. refl) (λ t. refl) refl

is_planned :
    refusing.patch_schedule (patched (planned refusing hourly fresh next_hour) ∷ []) ≡ ok tt
unfolding merged
is_planned = refl

is_refused :
    let t = sent_to (planned refusing hourly fresh next_hour) fresh in
    refusing.patch_schedule (
      patched (recorded refusing hourly fresh next_hour t)
      ∷ (asked_at refusing hourly fresh next_hour t).trace)
    ≡ err conflict
unfolding merged with_last backup_of
is_refused = refl

is_planned_again :
    let u = read_again (reconcile_schedule refusing hourly fresh).1 in
    refusing.patch_schedule (patched (planned refusing hourly u next_hour) ∷ u.trace) ≡ ok tt
unfolding merged reconcile_schedule ◌>>=◌ attempt with_last with_next backup_of
is_planned_again = refl

is_later : at_hour 3 ≤ clock (reconcile_schedule refusing hourly fresh).1.trace
unfolding reconcile_schedule ◌>>=◌ attempt merged with_last with_next backup_of
is_later = ground arith

unrecorded_backup_is_repeated_example :
    let y = reconcile_schedule refusing hourly fresh in
    (y.0 ≡ err (message "error patching schedule status: %w"))
    × (creations (reconcile_schedule refusing hourly (read_again y.1)).1.trace
        ≡ backup_of hourly (at_hour 3 + 5 * second) ∷ backup_of hourly (at_hour 3) ∷ [])
unfolding reconcile_schedule ◌>>=◌ attempt
unrecorded_backup_is_repeated_example =
    unrecorded_backup_is_repeated refusing hourly fresh next_hour conflict refl refl refl
      (ground arith) is_planned refl is_refused is_planned_again is_later
