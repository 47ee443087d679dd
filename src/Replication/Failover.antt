-- ===== src/Replication/Failover.antt =====
-- pkg/controller/replication/pod_readiness.go: the choice of a new primary when the primary's Pod is
-- not ready.
use doltdb_operator.Prelude.{
  ℕ, Bool, true, List, [], ◌∷◌, Option, none, some, ltb, ◌==◌, ◌&&◌, if◌then◌else◌, is_empty, deref,
}
use doltdb_operator.Effect.{
  Error, message, Result, ok, err, Op, pure, fail, lift, ◌>>=◌, ◌>>◌, attempt, wrap,
}
use doltdb_operator.Api.DoltDb.{
  DoltDb, primary_replication, set_primary_pod_index, replication_enabled,
  is_replication_configured,
}
use doltdb_operator.Api.Pod.{Pod}
use doltdb_operator.Naming.{pod_index}
use doltdb_operator.Dolt.{DbState, Time, oldest_update}
use doltdb_operator.Cluster.{Env, State, doltdb_now, patch_status, patch_doltdb}
use doltdb_operator.Sql.{client_for_index, get_db_state, new_client_set, tried, joined, error_of}
use doltdb_operator.Health.{healthy_dolt_db_standbys, healthy_dolt_db_replica}
use doltdb_operator.Replication.Switchover.{switching_status}

-- `shouldReconcile`; the defaults of the spec set `AutomaticFailover`.
unfoldable pub should_reconcile : DoltDb → Bool
should_reconcile d =
    replication_enabled d
    && (deref (primary_replication d).automatic_failover true && is_replication_configured d)

-- `bestIndex` and `bestLastUpdate`.
abbrev pub Best : Type 0
Best = Option (ℕ × Time)

abbrev pub better_than : Best → Time → Bool
better_than none oldest = true
better_than (some (i, last)) oldest = ltb last oldest

-- One standby that answered: it has to have replicated, and more recently than the best so far.
unfoldable pub weigh : ℕ → DbState → Best → Best
unfolding oldest_update
weigh index state best =
    if oldest_update state.status == 0
    then best
    else if better_than best (oldest_update state.status)
    then some (index, oldest_update state.status)
    else best

abbrev pub weigh_answer : ℕ → Best → Result DbState → Best
weigh_answer index best (err e) = best
weigh_answer index best (ok state) = weigh index state best

abbrev pub require_best : Best → Result ℕ
require_best none = err (message "no standby with replicated data found for failover")
require_best (some (index, last)) = ok index

module _ (env : Env) where
  abbrev pub ask_standby : ℕ → Best → Op State Best
  ask_standby index best =
      attempt (client_for_index env index)
        (λ _. get_db_state env index >>= λ state. pure (weigh_answer index best state))
        (λ _. pure best)

  abbrev pub ask_pod : Result ℕ → Best → Op State Best
  ask_pod (err e) best = pure best
  ask_pod (ok index) best = ask_standby index best

  -- The loop over the healthy standbys.
  unfoldable pub best_of : Best → List Pod → Op State Best
  unfolding client_for_index get_db_state weigh
  best_of best [] = pure best
  best_of best (p ∷ ps) = ask_pod (pod_index p.name) best >>= λ next. best_of next ps

  -- `selectFailoverCandidate`.
  unfoldable pub select_failover_candidate : Op State ℕ
  unfolding healthy_dolt_db_standbys new_client_set best_of
  select_failover_candidate = do
    standbys ← wrap "error listing healthy standbys: %v" (healthy_dolt_db_standbys env)
    if is_empty standbys
        then fail (message "no healthy standbys available")
        else (new_client_set >> (best_of none standbys >>= λ best. lift (require_best best)))

  -- `patchErr` and `statusErr`, joined.
  abbrev pub check_joined : Option Error → Op State (Unit {0})
  check_joined none = pure tt
  check_joined (some e) = fail (message "error patching DoltDB: %v")

  -- The patches that ask for the switch to the index; the second is sent even if the first failed.
  unfoldable pub request_switch : ℕ → Op State (Unit {0})
  unfolding patch_doltdb patch_status
  request_switch to_index = tried (patch_doltdb env (set_primary_pod_index to_index)) λ patched.
      doltdb_now >>= λ d.
      tried (patch_status env (switching_status env.meta d))
        λ status_patched. check_joined (joined (error_of patched) (error_of status_patched))

  abbrev pub fail_over : Op State (Unit {0})
  fail_over = attempt select_failover_candidate request_switch (λ _.
      wrap "error getting healthy Dolt replica: %v" (healthy_dolt_db_replica env)
      >>= request_switch)

  abbrev pub fail_over_from : Pod → Option ℕ → Op State (Unit {0})
  fail_over_from pod none = pure tt
  fail_over_from pod (some current) =
      wrap "error getting Pod index: %v" (lift (pod_index pod.name)) >>= λ index.
      if index == current then fail_over else pure tt

  -- `ReconcilePodNotReady`.
  unfoldable pub reconcile_pod_not_ready : Pod → Op State (Unit {0})
  unfolding select_failover_candidate healthy_dolt_db_replica request_switch should_reconcile
  reconcile_pod_not_ready pod = do
    d ← doltdb_now
    if should_reconcile d then fail_over_from pod d.status.current_primary_pod_index else pure tt
