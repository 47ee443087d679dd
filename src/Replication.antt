-- ===== src/Replication.antt =====
-- pkg/controller/replication: config.go and clientset.go, what its controllers share.
pub mod Switchover
pub mod Reconcile
pub mod Failover
pub mod Calls
pub mod Safety
pub mod Writable
pub mod Outcome
pub mod Epochs
pub mod Candidate
pub mod Weighing
pub mod Freshest
pub mod Shift
pub mod Stuck
use doltdb_operator.Prelude.{
  ℕ, zero, suc, Bool, List, [], ◌∷◌, ◌+◌, Option, none, some, ltb, if◌then◌else◌, deref, length,
}
use doltdb_operator.Effect.{
  Result, ok, err, message, Op, pure, fail, gets, lift, modify, ◌>>=◌, ◌>>◌, attempt, wrap,
}
use doltdb_operator.Api.DoltDb.{DoltDb, primary_replication}
use doltdb_operator.Dolt.{DbState, empty_state, primary, standby}
use doltdb_operator.Cluster.{Env, State, doltdb_now}
use doltdb_operator.Sql.{
  TransitionStandbyOpts, client_for_index, get_db_state, assume_role, remove_client_from_cache,
  transition_to_standby,
}
use doltdb_operator.Health.{healthy_dolt_db_standbys, hosts_of}

abbrev state_or_empty : Result DbState → DbState
state_or_empty (ok state) = state
state_or_empty (err e) = empty_state

-- `m` with `defer clientSet.RemoveClientFromCache(index)`.
unfoldable pub then_remove_client : {A : Type 0} → ℕ → Op State A → Op State A
unfolding remove_client_from_cache
then_remove_client index m =
    attempt m (λ a. remove_client_from_cache index >> pure a)
      (λ e. remove_client_from_cache index >> fail e)

module _ (env : Env) where
  -- `ConfigurePrimary`.
  unfoldable pub configure_primary : ℕ → ℕ → Op State (Unit {0})
  unfolding assume_role
  configure_primary index epoch =
      wrap "error configuring primary role and epoch %d for pod %s: %v"
        (assume_role env index primary epoch)

  -- `ConfigureReplica`.
  unfoldable pub configure_replica : ℕ → ℕ → Op State (Unit {0})
  unfolding assume_role
  configure_replica index epoch =
      wrap "error configuring standby role and epoch %d for pod %s: %v"
        (assume_role env index standby epoch)

  -- One round of `GetDBStates`: a server that cannot be asked leaves the zero state.
  unfoldable pub state_of : ℕ → Op State DbState
  unfolding client_for_index get_db_state
  state_of i =
      attempt (client_for_index env i)
        (λ _. get_db_state env i >>= λ state. pure (state_or_empty state)) (λ _. pure empty_state)

  unfoldable pub states_from : ℕ → ℕ → Op State (List DbState)
  unfolding state_of
  states_from i zero = pure []
  states_from i (suc n) = do state ← state_of i; rest ← states_from (suc i) n; pure (state ∷ rest)

  -- `GetDBStates`.
  unfoldable pub get_db_states : Op State (List DbState)
  unfolding states_from
  get_db_states = do d ← doltdb_now; states_from 0 d.spec.replicas

  abbrev pub client_of : Option ℕ → Op State ℕ
  client_of none = fail (message "'status.currentPrimaryPodIndex' must be set")
  client_of (some index) =
      wrap "error getting current primary client: %v" (client_for_index env index) >> pure index

  -- `ReplicationClientSet.currentPrimaryClient`: the index whose client it is.
  unfoldable pub current_primary_client : Op State ℕ
  unfolding client_for_index
  current_primary_client = do d ← doltdb_now; client_of d.status.current_primary_pod_index

  -- `minCaughtUpStandbys > numStandbys`, with `numStandbys` one less than the replicas.
  abbrev next_primary_among : DoltDb → ℕ → ℕ → ℕ → Op State ℕ
  next_primary_among d current min epoch =
      if ltb d.spec.replicas (min + 1)
      then fail (message "minCaughtUpStandbys must be less than the number of standbys")
      else (wrap "error getting healthy DoltDB standby replicas: %v" (healthy_dolt_db_standbys env)
          >>= λ standbys.
              if ltb (length standbys) min
              then fail (message "not enough healthy standbys to transition to primary: %d/%d")
              else (lift (hosts_of d standbys) >>= λ hosts.
                  wrap
                    "error configuring transitioning primary %d to standby and finding next primary at epoch %d: %v"
                    (transition_to_standby env current
                      (record { epoch = epoch; min_caught_up_standbys = min; hosts = hosts }))))

  -- `GetNextPrimary`, its client that of the current primary. A count of standbys is not negative.
  unfoldable pub get_next_primary : ℕ → Op State ℕ
  unfolding healthy_dolt_db_standbys hosts_of transition_to_standby
  get_next_primary epoch = do
    d ← doltdb_now
    elim d.status.current_primary_pod_index [
      | none ↦ fail (message "'status.currentPrimaryPodIndex' must be set")
      | some current ↦ elim (primary_replication d).min_caught_up_standbys [
        | none ↦ fail (message "minCaughtUpStandbys must be set to a value greater than -1")
        | some min ↦ next_primary_among d current min epoch
      ]
    ]
