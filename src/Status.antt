-- ===== src/Status.antt =====
-- pkg/controller/status: what the status of a DoltDB says of its servers, its primary and its update.
pub mod Monotone
use doltdb_operator.Prelude.{
  ℕ, zero, suc, ◌+◌, Bool, true, false, List, [], ◌∷◌, ◌++◌, Option, none, some, Bytes, ltb, leb,
  ◌==◌, ◌&&◌, ◌||◌, not, if◌then◌else◌, deref, str_eq, is_some, is_empty,
}
use doltdb_operator.Effect.{
  Error, panic, Requeue, nothing, Result, ok, err, Op, pure, fail, gets, modify, lift, ◌>>=◌, ◌>>◌,
  attempt, wrap,
}
use doltdb_operator.Api.Condition.{Meta, Condition}
use doltdb_operator.Api.DoltDb.{
  DoltDb, DoltDbStatus, ReplicationState, ReplicationStatus, not_configured, replication_enabled,
  primary_pod_index,
}
use doltdb_operator.Api.Pod.{Pod, pod_updated}
use doltdb_operator.Api.Status.{
  is_resizing_storage, is_switching_primary, update_current_primary, update_replication_epoch,
}
use doltdb_operator.Conditions.{
  set_pending_update, set_updating, set_updated, set_ready_with_dolt_db, StsStatus,
}
use doltdb_operator.Dolt.{DbState, Role, is_primary, is_standby, is_blank}
use doltdb_operator.Naming.{pod_name}
use doltdb_operator.Cluster.{
  Env, State, StatefulSet, call, set_doltdb, doltdb_now, get_stateful_set, list_pods,
  patched_status,
}
use doltdb_operator.Health.{is_dolt_db_replica_healthy}
use doltdb_operator.Replication.{get_db_states}
use doltdb_operator.Sql.{new_client_set}
use doltdb_operator.Storage.{with_conditions_of}
use doltdb_operator.Update.{get_revision}

-- `replicationStatus` and `highestEpoch`, -1 as `none`.
pub record Found : Type 0 where
  pub replication_status : ReplicationStatus
  pub highest_epoch : Option ℕ

-- The checks at the head of a round: an error counts unless there is a role and an epoch.
unfoldable pub is_usable : DbState → Bool
is_usable state =
    if is_some state.error && (is_blank state.role || state.epoch == 0)
    then false
    else not (is_blank state.role)

abbrev above : Option ℕ → ℕ → Bool
above none epoch = true
above (some highest) epoch = ltb highest epoch

-- `highestEpoch` after a round; `current` is the epoch of the status.
unfoldable pub raise_highest : ℕ → ℕ → Option ℕ → Option ℕ
raise_highest current epoch highest =
    if above highest epoch && ltb current epoch then some epoch else highest

abbrev is_other : Option Bytes → Bytes → Bool
is_other none name = false
is_other (some current) name = not (str_eq current name)

-- The entry of a healthy replica; none for a second primary.
unfoldable pub entry_of : Option Bytes → Bytes → Role → Option ReplicationState
entry_of current name role =
    if is_primary role
    then (if is_other current name then none else some ReplicationState.primary)
    else (if is_standby role then some ReplicationState.standby else some not_configured)

abbrev add_entry : Bytes → Option ReplicationState → ReplicationStatus → ReplicationStatus
add_entry name none status = status
add_entry name (some state) status = status ++ ((name, state) ∷ [])

abbrev pub raise_if : Option ℕ → DoltDbStatus → DoltDbStatus
raise_if none status = status
raise_if (some epoch) status = update_replication_epoch epoch status

abbrev pub replace_if : Option ReplicationStatus → DoltDbStatus → DoltDbStatus
replace_if none status = status
replace_if (some r) status = record status { replication_status = some r }

-- `defaultPrimary`.
unfoldable pub default_primary : DoltDb → DoltDb
default_primary d =
    if is_some d.status.current_primary_pod_index || is_some d.status.current_primary
    then d
    else record d {
      status =
          update_current_primary d (if replication_enabled d then primary_pod_index d else 0)
            d.status;
    }

unfoldable pub count_updated : Bytes → List Pod → ℕ
count_updated revision [] = 0
count_updated revision (p ∷ ps) =
    let rest = count_updated revision ps in if pod_updated p revision then suc rest else rest

-- The condition that `setUpdatedCondition` sets for a number of updated Pods.
unfoldable pub updated_conditions : Meta → ℕ → ℕ → List Condition → List Condition
updated_conditions m replicas pods_updated cs =
    if leb replicas pods_updated
    then set_updated m cs
    else (if ltb 0 pods_updated then set_updating m cs else set_pending_update m cs)

abbrev no_stateful_set : StsStatus
no_stateful_set = record { replicas = 0; ready_replicas = 0 }

abbrev pub change_doltdb : (DoltDb → DoltDb) → Op State (Unit {0})
change_doltdb f = doltdb_now >>= λ d. set_doltdb (f d)

abbrev pub change_status : (DoltDbStatus → DoltDbStatus) → DoltDb → DoltDb
change_status f d = record d { status = f d.status }

module _ (env : Env) where
  abbrev with_health : Option Bytes → Bytes → Role → Found → Result (Pod × Bool) → Found
  with_health current name role found (err e) = found
  with_health current name role found (ok (pod, healthy)) =
      if healthy
      then record found {
        replication_status = add_entry name (entry_of current name role) found.replication_status;
      }
      else found

  -- One round of `getReplicationStatusAndEpoch`.
  unfoldable pub look_at : ℕ → DbState → Found → Op State Found
  unfolding is_dolt_db_replica_healthy entry_of raise_highest
  look_at i state found = do
    d ← doltdb_now
    let name = pod_name d.name i
    let raised = record found {
      highest_epoch =
          raise_highest (deref d.status.replication_epoch 0) state.epoch found.highest_epoch;
    }
    if not (is_usable state)
        then pure found
        else attempt (is_dolt_db_replica_healthy env i)
            (λ healthy.
              pure (with_health d.status.current_primary name state.role raised (ok healthy)))
            (λ e. pure raised)

  -- The rounds from Pod `i` on; a missing state is an index out of range.
  unfoldable pub look_from : ℕ → ℕ → List DbState → Found → Op State Found
  unfolding look_at
  look_from i zero states found = pure found
  look_from i (suc n) [] found = fail panic
  look_from i (suc n) (state ∷ rest) found =
      look_at i state found >>= λ next. look_from (suc i) n rest next

  -- `getReplicationStatusAndEpoch`; without replication the nil map and -1.
  unfoldable pub get_replication_status_and_epoch :
      List DbState → Op State (Option ReplicationStatus × Option ℕ)
  unfolding look_from
  get_replication_status_and_epoch states = do
    d ← doltdb_now
    if not (replication_enabled d)
        then pure (none, none)
        else (look_from 0 d.spec.replicas states
              (record { replication_status = []; highest_epoch = none })
            >>= λ found. pure (some found.replication_status, found.highest_epoch))

  abbrev pub with_update_revision : Bytes → Op State (Unit {0})
  with_update_revision [] = pure tt
  with_update_revision (c ∷ revision) = wrap "error listing Pods: %v" (list_pods env) >>= λ pods.
      change_doltdb (λ d.
        change_status
          (with_conditions_of
            (updated_conditions env.meta d.spec.replicas (count_updated (c ∷ revision) pods)))
          d)

  -- `setUpdatedCondition`.
  unfoldable pub set_updated_condition : Op State (Unit {0})
  unfolding get_revision call set_doltdb
  set_updated_condition = get_revision env >>= with_update_revision

  abbrev set_conditions : StsStatus → Op State (Unit {0})
  set_conditions sts =
      attempt set_updated_condition (λ _. pure tt) (λ _. pure tt)
      >> change_doltdb
          (λ d. change_status (with_conditions_of (set_ready_with_dolt_db env.meta sts d)) d)

  abbrev set_conditions_unless_busy : StsStatus → Op State (Unit {0})
  set_conditions_unless_busy sts = do
    d ← doltdb_now
    if is_resizing_storage env.meta d || is_switching_primary env.meta d
        then pure tt
        else set_conditions sts

  -- The patcher of `Reconcile`.
  unfoldable pub set_status : StsStatus → Option ReplicationStatus → Option ℕ → Op State (Unit {0})
  unfolding set_updated_condition default_primary set_doltdb
  set_status sts replication_status highest_epoch = do
    change_doltdb (change_status λ s. record s { replicas = sts.ready_replicas })
    change_doltdb default_primary
    change_doltdb (change_status (raise_if highest_epoch))
    change_doltdb (change_status (replace_if replication_status))
    set_conditions_unless_busy sts

  -- The patch of the object as it stands now.
  unfoldable pub send_status : Op State (Unit {0})
  unfolding call set_doltdb
  send_status = do
    d ← doltdb_now
    answer ← call (patched_status d.status) (λ t. env.patch_status t d)
    set_doltdb answer

  abbrev pub db_states_if : Bool → Op State (List DbState)
  db_states_if b = if b then (new_client_set >> get_db_states env) else pure []

  abbrev counts_or_none : Op State StsStatus
  counts_or_none =
      attempt (get_stateful_set env) (λ sts. pure sts.counts) (λ _. pure no_stateful_set)

  -- `Reconcile`.
  unfoldable pub reconcile_status : Op State Requeue
  unfolding new_client_set get_db_states get_replication_status_and_epoch set_status send_status
      call
  reconcile_status = do
    sts ← counts_or_none
    d ← doltdb_now
    states ← db_states_if (replication_enabled d)
    found ← get_replication_status_and_epoch states
    set_status sts found.0 found.1
    send_status
    pure nothing
