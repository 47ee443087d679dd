-- ===== src/Scenarios/Failover.antt =====
-- The theorem on the choice of a failover at a cluster of three servers.
use doltdb_operator.Prelude.{
  ℕ, List, [], ◌∷◌, none, some, codes, str_lt, last_part, split, atoi, ◌≡◌, ◌≤◌, ◌==◌, inl, refl,
  if◌then◌else◌, arith,
}
use doltdb_operator.Effect.{ok, attempt, ◌>>=◌}
use doltdb_operator.Api.Pod.{is_pod_ready}
use doltdb_operator.Dolt.{DoltStatus, standby, oldest_update}
use doltdb_operator.Cluster.{Env, State}
use doltdb_operator.Naming.{pod_index}
use doltdb_operator.Health.{healthy_dolt_db_standbys}
use doltdb_operator.Replication.Failover.{select_failover_candidate}
use doltdb_operator.Replication.Freshest.{candidate_is_freshest}
use doltdb_operator.Scenarios.{cluster, first_pod, second_pod, pod_at, desired_at, state}

-- The server with index 2 has replicated later than the others.
abbrev statuses_of : ℕ → List DoltStatus
statuses_of i =
    record {
      database = codes "app";
      role = standby;
      epoch = 4;
      remote = [];
      replication_lag = some 0;
      last_update = some (if i == 2 then 9 else 7);
      current_error = none;
    }
    ∷ []

abbrev three_servers : Env
three_servers = record (cluster standby) {
  list_pods = λ t. ok (first_pod ∷ second_pod ∷ pod_at (codes "db-2") ∷ []);
  query_cluster_status = λ t i. ok (statuses_of i);
}

abbrev of_three : State
of_three =
    state (record (desired_at 0 []) { spec = record (desired_at 0 []).spec { replicas = 3 } })

same_statuses : (i : ℕ) (xs : List DoltStatus) → ok (statuses_of i) ≡ ok xs → xs ≡ statuses_of i
same_statuses i xs e = cc

two_standbys :
    (healthy_dolt_db_standbys three_servers of_three).0
    ≡ ok (second_pod ∷ pod_at (codes "db-2") ∷ [])
unfolding healthy_dolt_db_standbys ◌>>=◌ attempt str_lt is_pod_ready last_part split atoi pod_index
two_standbys = refl

third_selected : (select_failover_candidate three_servers of_three).0 ≡ ok 2
unfolding select_failover_candidate pod_index ◌>>=◌ attempt str_lt last_part split atoi is_pod_ready
third_selected = refl

second_at_one : pod_index second_pod.name ≡ ok 1
unfolding pod_index last_part split atoi
second_at_one = refl

candidate_is_freshest_example : oldest_update (statuses_of 1) ≤ oldest_update (statuses_of 2)
candidate_is_freshest_example =
    candidate_is_freshest three_servers statuses_of 1 (standby, 4) (λ t. refl) (λ t. refl)
      (λ t. refl) (λ t i xs e. same_statuses i xs e) of_three
      (second_pod ∷ pod_at (codes "db-2") ∷ []) second_pod 2 two_standbys (inl refl) second_at_one
      (omega arith) third_selected
