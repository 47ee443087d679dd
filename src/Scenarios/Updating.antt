-- ===== src/Scenarios/Updating.antt =====
-- The theorems on updates, on the choice of a primary, on conditions and on names at concrete inputs.
use doltdb_operator.Prelude.{
  if◌then◌else◌, ◌==◌, ℕ, ◌≤◌, List, [], ◌∷◌, none, some, codes, ◌≡◌, inl, inr, refl, arith, str_lt,
  str_eq, split, last_part, atoi, decimal,
}
use doltdb_operator.Effect.{ok}
use doltdb_operator.Api.DoltDb.{DoltDb, internal_service_name}
use doltdb_operator.Api.Pod.{is_pod_ready}
use doltdb_operator.Dolt.{
  DbState, DoltStatus, Role, primary, standby, current_primary_and_epoch, pick_next_primary,
  oldest_update,
}
use doltdb_operator.Dolt.PrimarySearch.{
  primaries, max_epoch, by_primaries, current_primary_and_epoch-primaries,
}
use doltdb_operator.Dolt.NextPrimary.{At, freshness, pick_next_primary_freshest}
use doltdb_operator.Naming.{pod_index, pod_name, pod_short_fqdn}
use doltdb_operator.Naming.RoundTrip.{pod_index-pod_name}
use doltdb_operator.Cluster.{Env, State, TransitionRow}
use doltdb_operator.Cluster.Traces.{assumed_roles}
use doltdb_operator.Sql.{caught_up_position}
use doltdb_operator.Health.{standbys_of, sort_pod_list}
use doltdb_operator.Update.{reconcile_updates}
use doltdb_operator.Update.Primary.{graceful_primary_update}
use doltdb_operator.Update.Order.{DeletesNext, next_update, reconcile_updates-DeletesNext}
use doltdb_operator.Update.Lag.{IsFine, next_replica, lagging_primary_is_kept}
use doltdb_operator.Update.Promotion.{sole_standby_promotes_index_zero}
use doltdb_operator.Api.Condition.{Condition}
use doltdb_operator.Conditions.States.{with_conditions}
use doltdb_operator.Scenarios.{cluster, desired_at, state, first_pod, second_pod}

abbrev steady : State
steady = state (desired_at 0 [])

reconcile_updates-DeletesNext_example :
    DeletesNext next_update
      (cluster standby)
      steady
      []
      (reconcile_updates (cluster standby) steady).1
reconcile_updates-DeletesNext_example = reconcile_updates-DeletesNext (cluster standby) steady

abbrev lagging : DoltStatus
lagging = record {
  database = codes "app";
  role = primary;
  epoch = 4;
  remote = codes "standby1";
  replication_lag = some 6000;
  last_update = some 7;
  current_error = none;
}

slow : ¬ IsFine lagging
slow (inl none_known, e) = cc
slow (inr (lag, same, small), e) = let q : 6000 ≡ lag = cc in ground arith

abbrev lagging_cluster : Env
lagging_cluster = record (cluster primary) {
  query_cluster_status = λ t i. ok (if i == 0 then lagging ∷ [] else []);
}

lagging_primary_is_kept_example :
    DeletesNext next_replica lagging_cluster steady [] (reconcile_updates lagging_cluster steady).1
lagging_primary_is_kept_example =
    lagging_primary_is_kept lagging_cluster (lagging ∷ []) 0 steady refl (λ t. refl) (λ t. refl)
      (λ h. slow h.1.0) refl

-- The hand-over of a primary at the first index to its standby at the second.
abbrev moved : List TransitionRow
moved =
    record {
      caught_up = 1;
      host = codes "db-1.db-internal.ns:50051";
      hostname = codes "db-1.db-internal.ns";
    }
    ∷ []

abbrev handing_over : Env
handing_over = record (cluster primary) { call_transition = λ t i e n. ok moved }

sole : standbys_of (some 0) (sort_pod_list (first_pod ∷ second_pod ∷ [])) ≡ ok (second_pod ∷ [])
unfolding standbys_of sort_pod_list pod_index str_lt last_part split atoi is_pod_ready
sole = refl

second_at : pod_index second_pod.name ≡ ok 1
unfolding pod_index last_part split atoi
second_at = refl

caught_up :
    caught_up_position
      (λ l. l)
      (pod_short_fqdn (codes "db") (codes "ns") 1 (internal_service_name steady.doltdb) ∷ [])
      moved
    ≡ ok 0
unfolding caught_up_position str_eq pod_short_fqdn decimal
caught_up = refl

sole_standby_promotes_index_zero_example :
    assumed_roles (graceful_primary_update handing_over first_pod (codes "r2") steady).1.trace
    ≡ (0, primary, 5) ∷ []
sole_standby_promotes_index_zero_example =
    sole_standby_promotes_index_zero handing_over (first_pod ∷ second_pod ∷ []) primary 4 moved
      (λ t i. refl) (λ t i. refl) (λ t. refl) (λ t i e n. refl) first_pod second_pod (codes "r2") 0
      1 0 steady refl refl sole second_at caught_up

abbrev reporting : Role → ℕ → ℕ → DbState
reporting role epoch updated = record {
  role = role;
  epoch = epoch;
  status = record lagging { last_update = some updated } ∷ [];
  version = [];
  error = none;
}

abbrev three : List DbState
three = reporting primary 4 9 ∷ reporting standby 5 7 ∷ reporting standby 4 8 ∷ []

current_primary_and_epoch-primaries_example :
    current_primary_and_epoch three ≡ by_primaries (primaries three) (max_epoch three)
current_primary_and_epoch-primaries_example = current_primary_and_epoch-primaries three

picked : pick_next_primary three ≡ some 2
unfolding pick_next_primary oldest_update
picked = refl

pick_next_primary_freshest_example :
    (s : DbState) × At 2 s 0 three
    × (s.role ≡ standby)
    × (freshness (reporting standby 5 7) ≤ freshness s)
pick_next_primary_freshest_example =
    pick_next_primary_freshest three 2 1 (reporting standby 5 7) picked (inr (inl (refl, refl)))
      refl

pod_index-pod_name_example : pod_index (pod_name (codes "db-eu") 12) ≡ ok 12
pod_index-pod_name_example = pod_index-pod_name (codes "db-eu") 12 (ground arith)

-- The DoltDB with its conditions changed.
abbrev changed : (List Condition → List Condition) → DoltDb
changed f = with_conditions (f steady.doltdb.status.conditions) steady.doltdb
