-- ===== src/Update/Primary.antt =====
-- updater.go: when the primary may be updated, and how.
use doltdb_operator.Prelude.{
  ℕ, zero, suc, ◌+◌, Bool, true, false, List, [], ◌∷◌, Option, none, some, Bytes, ltb, ◌||◌, not,
  if◌then◌else◌, is_empty,
}
use doltdb_operator.Effect.{
  message, skip_phase, is_not_found, ok, Op, Requeue, nothing, after, pure, fail, ◌>>=◌, ◌>>◌,
  attempt, wrap,
}
use doltdb_operator.Api.DoltDb.{replication_enabled, is_replication_configured}
use doltdb_operator.Api.Pod.{Pod, pod_updated}
use doltdb_operator.Dolt.{primary, standby, DoltStatus}
use doltdb_operator.Sql.{get_cluster_status, get_role_and_epoch, transition_to_standby, assume_role}
use doltdb_operator.Health.{
  healthy_dolt_db_standbys, standby_host_fqdns, is_dolt_db_replica_healthy,
}
use doltdb_operator.Cluster.{
  Env, State, call, doltdb_now, connect, get_pod, delete_pod, got_doltdb, polled,
}
use doltdb_operator.PodRoles.{mark_role}

abbrev pub max_replication_lag_millis : ℕ
max_replication_lag_millis = 5000

abbrev pub lags : Option ℕ → Bool
lags none = false
lags (some lag) = ltb max_replication_lag_millis lag

abbrev pub has_error : Option Bytes → Bool
has_error none = false
has_error (some e) = not (is_empty e)

-- The loop over the statuses that the primary reports.
unfoldable pub check_statuses : List DoltStatus → Requeue
check_statuses [] = nothing
check_statuses (s ∷ rest) =
    if lags s.replication_lag || has_error s.current_error then after 2 else check_statuses rest

unfoldable pub judge_statuses : List DoltStatus → Requeue
unfolding check_statuses
judge_statuses [] = after 2
judge_statuses (s ∷ rest) = check_statuses (s ∷ rest)

-- The rounds of a poll: `false` means that the context ended before the condition held.
unfoldable pub poll : ℕ → Op State Bool → Op State (Unit {0})
poll zero condition = fail (message "context deadline exceeded")
poll (suc rounds) condition =
    let rest = poll rounds condition in condition >>= λ done. if done then pure tt else rest

module _ (env : Env) where
  -- One round of `pollUntilPodUpdated` in `PollWithDoltDB`: it ends when the DoltDB is gone, or when
  -- the Pod is there in the wanted revision; an error of the round means another round.
  unfoldable pub pod_is_updated : Bytes → Bytes → Op State Bool
  unfolding call
  pod_is_updated name revision =
      attempt (call got_doltdb env.get_doltdb)
        (λ _. attempt (get_pod env name) (λ p. pure (pod_updated p revision)) (λ _. pure false))
        (λ e.
          if is_not_found e
          then pure true
          else attempt (get_pod env name) (λ p. pure (pod_updated p revision)) (λ _. pure false))

  -- `pollUntilPodUpdated`.
  unfoldable pub poll_until_pod_updated : Bytes → Bytes → Op State (Unit {0})
  unfolding call poll pod_is_updated
  poll_until_pod_updated name revision = do
    rounds ← call polled (λ t. ok (env.poll_rounds t))
    poll rounds (pod_is_updated name revision)

  -- `updatePod`.
  unfoldable pub update_pod : Pod → Bytes → Op State (Unit {0})
  unfolding call poll_until_pod_updated
  update_pod pod revision = do
    wrap "error deleting Pod '%s': %v" (delete_pod env pod.name)
    wrap "error waiting for Pod '%s' to be updated: %v" (poll_until_pod_updated pod.name revision)

  -- `waitForReplicationCaughtUp`.
  unfoldable pub check_lag : ℕ → Op State Requeue
  unfolding call judge_statuses
  check_lag index =
      attempt (connect env index)
        (λ _.
          attempt (get_cluster_status env index) (λ statuses. pure (judge_statuses statuses))
            (λ _. pure nothing))
        (λ _. pure nothing)

  abbrev pub caught_up_from : Option ℕ → Op State Requeue
  caught_up_from none = pure (after 1)
  caught_up_from (some index) =
      attempt (healthy_dolt_db_standbys env)
        (λ standbys. if is_empty standbys then pure (after 2) else check_lag index)
        (λ _. pure (after 2))

  unfoldable pub wait_for_replication_caught_up : Op State Requeue
  unfolding check_lag
  wait_for_replication_caught_up = do
    d ← doltdb_now
    if not (replication_enabled d)
        then pure nothing
        else if not (is_replication_configured d)
        then fail skip_phase
        else caught_up_from d.status.current_primary_pod_index

  -- The last steps of `gracefulPrimaryUpdate`: promote the server at `index`, relabel, delete.
  unfoldable pub promote_and_update : Pod → Bytes → ℕ → ℕ → Op State (Unit {0})
  unfolding call
  promote_and_update pod revision epoch index = do
    wrap "error connecting to new primary at index %d: %v" (connect env index)
    wrap "error promoting standby at index %d to primary: %v" (assume_role env index primary epoch)
    wrap "error marking old primary pod '%s' as standby: %v" (mark_role env pod standby)
    found ←
        wrap "error getting new primary pod at index %d: %v" (is_dolt_db_replica_healthy env index)
    wrap "error marking new primary pod '%s': %v" (mark_role env found.0 primary)
    update_pod pod revision

  -- From the role query on; a step that fails falls back to the direct update.
  unfoldable pub hand_over : Pod → Bytes → ℕ → Op State (Unit {0})
  unfolding promote_and_update
  hand_over pod revision index =
      attempt (get_role_and_epoch env index)
        (λ found.
          attempt (standby_host_fqdns env)
            (λ hosts.
              attempt
                (transition_to_standby env index
                  (record { epoch = found.1 + 1; min_caught_up_standbys = 1; hosts = hosts }))
                (λ caught_up. promote_and_update pod revision (found.1 + 1) caught_up)
                (λ _. update_pod pod revision))
            (λ _. update_pod pod revision))
        (λ _. update_pod pod revision)

  abbrev pub graceful_from : Pod → Bytes → Bool → Option ℕ → Op State (Unit {0})
  graceful_from pod revision enabled none = update_pod pod revision
  graceful_from pod revision false (some index) = update_pod pod revision
  graceful_from pod revision true (some index) =
      attempt (connect env index) (λ _. hand_over pod revision index) (λ _. update_pod pod revision)

  -- `gracefulPrimaryUpdate`.
  unfoldable pub graceful_primary_update : Pod → Bytes → Op State (Unit {0})
  unfolding hand_over
  graceful_primary_update pod revision = do
    d ← doltdb_now
    graceful_from pod revision (replication_enabled d) d.status.current_primary_pod_index
