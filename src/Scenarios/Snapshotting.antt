-- ===== src/Scenarios/Snapshotting.antt =====
-- The theorem on Snapshots at a concrete Snapshot.
use doltdb_operator.Prelude.{[], ◌∷◌, some, codes, true, ◌≡◌, refl}
use doltdb_operator.Effect.{ok, err, not_found, message, nothing, attempt, ◌>>=◌}
use doltdb_operator.Api.Condition.{snapshot_created}
use doltdb_operator.Snapshot.{Snapshot, State, Env, reconcile_snapshot}
use doltdb_operator.Snapshot.Reported.{early_mark_stays}
use doltdb_operator.Scenarios.{list_meta}

abbrev nightly : Snapshot
nightly = record {
  name = codes "nightly";
  namespace = codes "ns";
  doltdb_ref = codes "db";
  frequency_schedule = some (codes "at night");
}

-- One volume, no object yet, and a schedule that does not parse.
abbrev refusing_schedule : Env
refusing_schedule = record {
  meta = list_meta;
  get_snapshot = λ t. ok tt;
  patch_status = λ t. ok tt;
  resolve_doltdb = λ t. ok tt;
  wait_for_doltdb = λ t. ok nothing;
  list_pvcs = λ t. ok (codes "data-db-0" ∷ []);
  snapshot_yaml = λ pvc. ok pvc;
  build_config_map = λ m. ok tt;
  build_cron_job = λ j. ok tt;
  parse_standard = λ text. err (message "expected exactly 5 fields");
  get_config_map = λ t name. err not_found;
  create_config_map = λ t m. ok tt;
  patch_config_map = λ t m. ok tt;
  get_cron_job = λ t name. err not_found;
  create_cron_job = λ t j. ok tt;
  patch_cron_job = λ t j. ok tt;
}

abbrev unread : State
unread = record { object = []; stored = []; trace = [] }

early_mark_stays_example :
    list_meta.is_status_condition_true
      (reconcile_snapshot refusing_schedule nightly unread).1.stored
      snapshot_created
    ≡ true
early_mark_stays_example = early_mark_stays refusing_schedule nightly unread refl refl

-- That pass fails.
pass_fails :
    (reconcile_snapshot refusing_schedule nightly unread).0
    ≡ err (message "invalid cron expression for FrequencySchedule: %v")
unfolding reconcile_snapshot attempt ◌>>=◌
pass_fails = refl
