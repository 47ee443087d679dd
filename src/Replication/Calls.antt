-- ===== src/Replication/Calls.antt =====
-- What the steps of the replication controllers call: only the last step of a switchover asks a
-- server to assume a role.
use doltdb_operator.Prelude.{
  ℕ, zero, suc, false, List, [], ◌∷◌, Option, none, some, ◌≡◌, refl, not, keep, ◌==◌,
}
use doltdb_operator.Effect.{Result, Op, modify, ◌>>=◌}
use doltdb_operator.Effect.Keeps.{
  Keeps, keeps_rules, Keeps-modify, Keeps-bind, Keeps-attempt, Keeps-pure, Keeps-fail, Keeps-if,
}
use doltdb_operator.Dolt.{Role}
use doltdb_operator.Api.Pod.{Pod}
use doltdb_operator.Api.DoltDb.{DoltDb}
use doltdb_operator.Cluster.{Env, State, Event, Trace, call, doltdb_now}
use doltdb_operator.Sql.{
  TransitionStandbyOpts, add_client, client_for_index, remove_client_from_cache, get_role_and_epoch,
  get_version, get_cluster_status, get_db_state, transition_to_standby, new_client_set,
}
use doltdb_operator.PodRoles.{mark_role}
use doltdb_operator.Health.{
  is_dolt_db_replica_healthy, healthy_dolt_db_standbys, standby_host_fqdns,
}
use doltdb_operator.Cluster.Roles.{promotes}
use doltdb_operator.Replication.{
  then_remove_client, state_of, states_from, get_db_states, client_of, current_primary_client,
}
use doltdb_operator.Replication.Switchover.{
  ClusterContext, mark_standbys, shift_traffic_away_from_primary, ready_of, current_primary_ready,
  drain_primary, set_primary_read_only, shift_traffic_to_new_primary, phase,
}

-- A predicate that no call but one to assume a role, and no change of the clients, takes away.
pub record Stable (P : State → Type 0) : Type 1 where
  pub of_call :
      {A : Type 0} (e : Event) (answer : Trace → Result A)
      → promotes e ≡ false
      → Keeps P (call e answer)
  pub of_clients : (s : State) (clients : List ℕ) → P s → P (record s { clients = clients })

-- A step that reads the object.
pub Keeps-now :
    {P : State → Type 0} {B : Type 0} (f : DoltDb → Op State B)
    → ((d : DoltDb) → ((s : State) → P s → s.doltdb ≡ d → P (f d s).1))
    → Keeps P (doltdb_now >>= f)
unfolding ◌>>=◌
Keeps-now f h = record { at = λ s p. h s.doltdb s p refl }

module _ {P : State → Type 0} (st : Stable P) (env : Env) where
  clients_kept : (f : List ℕ → List ℕ) → Keeps P (modify λ s. record s { clients = f s.clients })
  clients_kept f = Keeps-modify _ (λ s p. st.of_clients s (f s.clients) p)

  pub remove_client_kept : (i : ℕ) → Keeps P (remove_client_from_cache i)
  unfolding remove_client_from_cache
  remove_client_kept i = clients_kept (keep (λ j. not (j == i)))

  pub new_client_set_kept : Keeps P new_client_set
  unfolding new_client_set
  new_client_set_kept = clients_kept (λ _. [])

  pub add_client_kept : (i : ℕ) → Keeps P (add_client env i)
  unfolding add_client
  add_client_kept i =
      Keeps-bind _ _ (search (keeps_rules, st.of_call, refl) depth 6)
        (λ _. clients_kept (λ cs. i ∷ cs))

  pub client_for_index_kept : (i : ℕ) → Keeps P (client_for_index env i)
  unfolding client_for_index
  client_for_index_kept i = search (keeps_rules, add_client_kept) depth 12

  pub then_remove_client_kept :
      {A : Type 0} (i : ℕ) (m : Op State A) → Keeps P m → Keeps P (then_remove_client i m)
  unfolding then_remove_client
  then_remove_client_kept i m k =
      Keeps-attempt _ _ _ k (λ a. Keeps-bind _ _ (remove_client_kept i) (λ _. Keeps-pure a))
        (λ e. Keeps-bind _ _ (remove_client_kept i) (λ _. Keeps-fail e))

  pub get_role_and_epoch_kept : (i : ℕ) → Keeps P (get_role_and_epoch env i)
  unfolding get_role_and_epoch
  get_role_and_epoch_kept i = search (keeps_rules, st.of_call, refl) depth 8

  pub get_version_kept : (i : ℕ) → Keeps P (get_version env i)
  unfolding get_version
  get_version_kept i = search (st.of_call, refl)

  pub get_cluster_status_kept : (i : ℕ) → Keeps P (get_cluster_status env i)
  unfolding get_cluster_status
  get_cluster_status_kept i = search (st.of_call, refl)

  pub get_db_state_kept : (i : ℕ) → Keeps P (get_db_state env i)
  unfolding get_db_state
  get_db_state_kept i =
      search (keeps_rules, get_role_and_epoch_kept, get_version_kept, get_cluster_status_kept) depth
        12

  state_of_kept : (i : ℕ) → Keeps P (state_of env i)
  unfolding state_of
  state_of_kept i = search (keeps_rules, client_for_index_kept, get_db_state_kept) depth 12

  states_from_kept : (i n : ℕ) → Keeps P (states_from env i n)
  unfolding states_from
  states_from_kept i zero = Keeps-pure []
  states_from_kept i (suc n) =
      Keeps-bind _ _ (state_of_kept i)
        (λ x. Keeps-bind _ _ (states_from_kept (suc i) n) (λ y. Keeps-pure _))

  pub get_db_states_kept : Keeps P (get_db_states env)
  unfolding get_db_states
  get_db_states_kept = search (keeps_rules, states_from_kept) depth 8

  client_of_kept : (o : Option ℕ) → Keeps P (client_of env o)
  client_of_kept none = search keeps_rules
  client_of_kept (some i) = search (keeps_rules, client_for_index_kept) depth 8

  pub current_primary_client_kept : Keeps P (current_primary_client env)
  unfolding current_primary_client
  current_primary_client_kept = search (keeps_rules, client_of_kept) depth 6

  mark_role_kept : (p : Pod) (r : Role) → Keeps P (mark_role env p r)
  unfolding mark_role
  mark_role_kept p r = search (st.of_call, refl)

  mark_standbys_kept : (i n : ℕ) → Keeps P (mark_standbys env i n)
  unfolding mark_standbys
  mark_standbys_kept i zero = Keeps-pure tt
  mark_standbys_kept i (suc n) = Keeps-bind _ _ (search keeps_rules) (λ d.
      Keeps-bind _ _
        (Keeps-attempt _ _ _ (search (st.of_call, refl))
          (λ pod. search (keeps_rules, mark_role_kept) depth 6) (λ _. Keeps-pure tt))
        (λ _. mark_standbys_kept (suc i) n))

  pub shift_away_kept : Keeps P (shift_traffic_away_from_primary env)
  unfolding shift_traffic_away_from_primary
  shift_away_kept = search (keeps_rules, mark_standbys_kept) depth 8

  pub healthy_kept : (i : ℕ) → Keeps P (is_dolt_db_replica_healthy env i)
  unfolding is_dolt_db_replica_healthy
  healthy_kept i = search (keeps_rules, st.of_call, refl) depth 8

  pub healthy_dolt_db_standbys_kept : Keeps P (healthy_dolt_db_standbys env)
  unfolding healthy_dolt_db_standbys
  healthy_dolt_db_standbys_kept = search (keeps_rules, st.of_call, refl) depth 12

  standby_host_fqdns_kept : Keeps P (standby_host_fqdns env)
  unfolding standby_host_fqdns
  standby_host_fqdns_kept = search (keeps_rules, healthy_dolt_db_standbys_kept) depth 12

  transition_kept : (i : ℕ) (o : TransitionStandbyOpts) → Keeps P (transition_to_standby env i o)
  unfolding transition_to_standby
  transition_kept i o = search (keeps_rules, st.of_call, refl) depth 8

  ready_of_kept : (o : Option ℕ) → Keeps P (ready_of env o)
  ready_of_kept none = search keeps_rules
  ready_of_kept (some i) = healthy_kept i

  pub current_primary_ready_kept : Keeps P (current_primary_ready env)
  unfolding current_primary_ready
  current_primary_ready_kept = search (keeps_rules, ready_of_kept) depth 6

  drain_primary_kept : (i : ℕ) (ctx : ClusterContext) → Keeps P (drain_primary env i ctx)
  unfolding drain_primary
  drain_primary_kept i ctx = search (keeps_rules, standby_host_fqdns_kept, transition_kept) depth 14

  pub set_primary_read_only_kept : (ctx : ClusterContext) → Keeps P (set_primary_read_only env ctx)
  unfolding set_primary_read_only
  set_primary_read_only_kept ctx =
      search
        (
          keeps_rules, current_primary_ready_kept, current_primary_client_kept,
          then_remove_client_kept, get_role_and_epoch_kept, drain_primary_kept,
        )
        depth 20

  pub shift_to_new_kept : (ctx : ClusterContext) → Keeps P (shift_traffic_to_new_primary env ctx)
  unfolding shift_traffic_to_new_primary
  shift_to_new_kept ctx = search (keeps_rules, healthy_kept, mark_role_kept) depth 16

  pub phase_kept : (m : Op State (Unit {0})) → Keeps P m → Keeps P (phase m)
  unfolding phase
  phase_kept m k =
      Keeps-attempt _ _ _ k (λ a. Keeps-pure a) (λ e. Keeps-if _ _ _ (Keeps-fail e) (Keeps-fail _))
