-- ===== src/Replication/Switchover.antt =====
-- pkg/controller/replication/switchover.go: the phases that move the primary to the index of the
-- spec. Log lines, events and metrics are left out.
use doltdb_operator.Prelude.{
  ℕ, zero, suc, ◌+◌, Bool, true, false, List, Option, none, some, ◌==◌, not, if◌then◌else◌, deref,
}
use doltdb_operator.Effect.{
  Error, read_only, message, is_not_found, Result, ok, err, Op, pure, fail, ◌>>=◌, ◌>>◌, attempt,
  wrap,
}
use doltdb_operator.Api.Condition.{Meta}
use doltdb_operator.Api.DoltDb.{DoltDb, DoltDbStatus, primary_pod_index}
use doltdb_operator.Api.Pod.{Pod}
use doltdb_operator.Api.Status.{
  is_resizing_storage, update_current_primary, update_replication_epoch,
}
use doltdb_operator.Conditions.{set_primary_switching, set_primary_switched}
use doltdb_operator.Naming.{pod_name}
use doltdb_operator.Dolt.{DbState, Role, primary, standby, is_standby, current_primary_and_epoch}
use doltdb_operator.Cluster.{Env, State, call, doltdb_now, get_pod, patch_status}
use doltdb_operator.Sql.{client_for_index, get_role_and_epoch, assume_role, transition_to_standby}
use doltdb_operator.Health.{is_dolt_db_replica_healthy, standby_host_fqdns}
use doltdb_operator.PodRoles.{mark_role}
use doltdb_operator.Replication.{get_db_states, current_primary_client, then_remove_client}

-- `doltClusterContext`.
pub record ClusterContext : Type 0 where
  pub states : List DbState
  pub current_primary : ℕ
  pub next_epoch : ℕ

abbrev pub other_index : Option ℕ → ℕ → Bool
other_index none desired = false
other_index (some current) desired = not (current == desired)

-- `shouldReconcileSwitchover`.
unfoldable pub should_reconcile_switchover : Meta → DoltDb → Bool
should_reconcile_switchover m d =
    if is_resizing_storage m d
    then false
    else other_index d.status.current_primary_pod_index (primary_pod_index d)

-- The primary and the highest epoch of the reachable servers, or else those of the status.
unfoldable pub cluster_context : DoltDb → List DbState → ClusterContext
cluster_context d states = elim (current_primary_and_epoch states) [
  | ok (current, highest) ↦ record {
    states = states;
    current_primary = current;
    next_epoch = highest + 1;
  }
  | err e ↦ record {
    states = states;
    current_primary = deref d.status.current_primary_pod_index 0;
    next_epoch = deref d.status.replication_epoch 0 + 1;
  }
]

-- `sql.IsReadOnlyError`.
abbrev pub is_read_only : Error → Bool
is_read_only read_only = true
is_read_only _ = false

-- The answer of the query tells that the server is a standby already.
abbrev already_standby : Result (Role × ℕ) → Bool
already_standby (ok (role, epoch)) = is_standby role
already_standby (err e) = false

abbrev pub switching_status : Meta → DoltDb → DoltDbStatus → DoltDbStatus
switching_status m d status = record status {
  conditions = set_primary_switching m d status.conditions;
}

abbrev pub switched_status : Meta → DoltDb → ℕ → ℕ → DoltDbStatus → DoltDbStatus
switched_status m d index epoch status =
    let moved = update_replication_epoch epoch (update_current_primary d index status) in
    record moved { conditions = set_primary_switched m moved.conditions }

-- What the loop over the phases makes of a phase's error.
unfoldable pub phase : Op State (Unit {0}) → Op State (Unit {0})
phase m = attempt m pure (λ e.
    if is_not_found e
    then fail e
    else fail (message "error in '%s' switchover reconcile phase: %v"))

module _ (env : Env) where
  unfoldable pub mark_standbys : ℕ → ℕ → Op State (Unit {0})
  unfolding mark_role call
  mark_standbys i zero = pure tt
  mark_standbys i (suc n) = do
    d ← doltdb_now
    attempt (get_pod env (pod_name d.name i))
        (λ pod.
          wrap "error marking pod '%s' role as standby to shift traffic away from primary: %v"
            (mark_role env pod standby))
        (λ _. pure tt)
    mark_standbys (suc i) n

  -- `shiftTrafficAwayFromPrimary`.
  unfoldable pub shift_traffic_away_from_primary : Op State (Unit {0})
  unfolding mark_standbys
  shift_traffic_away_from_primary = do d ← doltdb_now; mark_standbys 0 d.spec.replicas

  abbrev pub ready_of : Option ℕ → Op State (Pod × Bool)
  ready_of none = fail (message "'status.currentPrimaryPodIndex' must be set")
  ready_of (some index) = is_dolt_db_replica_healthy env index

  -- `currentPrimaryReady`.
  unfoldable pub current_primary_ready : Op State (Pod × Bool)
  unfolding is_dolt_db_replica_healthy
  current_primary_ready = do d ← doltdb_now; ready_of d.status.current_primary_pod_index

  -- The hand-over of the server with the index to its standbys.
  unfoldable pub drain_primary : ℕ → ClusterContext → Op State (Unit {0})
  unfolding standby_host_fqdns transition_to_standby
  drain_primary index ctx = do
    hosts ←
        wrap "error resolving standby hosts for graceful transition: %v" (standby_host_fqdns env)
    attempt
        (transition_to_standby env index
          (record { epoch = ctx.next_epoch; min_caught_up_standbys = 1; hosts = hosts }))
        (λ _. pure tt)
        (λ e.
          if is_read_only e
          then pure tt
          else fail (message "error gracefully transitioning primary to standby: %v"))

  abbrev pub drain_unless_standby : ℕ → ClusterContext → Op State (Unit {0})
  drain_unless_standby index ctx =
      attempt (get_role_and_epoch env index)
        (λ found. if is_standby found.0 then pure tt else drain_primary index ctx)
        (λ _. drain_primary index ctx)

  -- `setPrimaryReadOnly`.
  unfoldable pub set_primary_read_only : ClusterContext → Op State (Unit {0})
  unfolding current_primary_ready current_primary_client then_remove_client get_role_and_epoch
      drain_primary
  set_primary_read_only ctx = do
    found ← wrap "error getting current primary readiness: %v" current_primary_ready
    if not found.1
        then pure tt
        else (wrap "error getting client for primary: %v" (current_primary_client env) >>= λ index.
            then_remove_client index (drain_unless_standby index ctx))

  -- `configureNewPrimary`; the index of the spec is never nil once its defaults are filled in.
  unfoldable pub configure_new_primary : ClusterContext → Op State (Unit {0})
  unfolding client_for_index then_remove_client assume_role
  configure_new_primary ctx = do
    d ← doltdb_now
    wrap "error getting new primary SQL client: %v" (client_for_index env (primary_pod_index d))
    then_remove_client (primary_pod_index d) (
        wrap "error configuring new primary: %v"
          (assume_role env (primary_pod_index d) primary ctx.next_epoch))

  -- `shiftTrafficToNewPrimary`.
  unfoldable pub shift_traffic_to_new_primary : ClusterContext → Op State (Unit {0})
  unfolding is_dolt_db_replica_healthy mark_role
  shift_traffic_to_new_primary ctx = do
    found ←
        wrap "error getting current primary readiness: %v"
          (is_dolt_db_replica_healthy env ctx.current_primary)
    if not found.1
        then fail (message "new primary '%s' is not ready")
        else wrap "error patching primary pod '%s' to shift traffic to it: %v"
            (mark_role env found.0 primary)

  -- The four phases, in their order.
  unfoldable pub run_phases : ClusterContext → Op State (Unit {0})
  unfolding phase shift_traffic_away_from_primary set_primary_read_only configure_new_primary
      shift_traffic_to_new_primary
  run_phases ctx = do
    phase shift_traffic_away_from_primary
    phase (set_primary_read_only ctx)
    phase (configure_new_primary ctx)
    phase (shift_traffic_to_new_primary ctx)

  -- The last patch of the status.
  unfoldable pub record_switch : ℕ → ClusterContext → Op State (Unit {0})
  unfolding patch_status
  record_switch index ctx = do
    d ← doltdb_now
    wrap "error patching DoltDB status: %v"
        (patch_status env (switched_status env.meta d index ctx.next_epoch))

  -- `reconcileSwitchover` from the decision on. The index that the switch goes to is read here, once.
  unfoldable pub switch_over : DoltDb → List DbState → Op State (Unit {0})
  unfolding patch_status run_phases record_switch cluster_context
  switch_over d states = do
    wrap "error patching DoltDB status: %v" (patch_status env (switching_status env.meta d))
    run_phases (cluster_context d states)
    record_switch (primary_pod_index d) (cluster_context d states)

  -- `reconcileSwitchover`.
  unfoldable pub reconcile_switchover : Op State (Unit {0})
  unfolding get_db_states switch_over should_reconcile_switchover
  reconcile_switchover = do
    states ← get_db_states env
    d ← doltdb_now
    if should_reconcile_switchover env.meta d then switch_over d states else pure tt
