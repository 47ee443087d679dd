-- ===== src/Update/Quiet.antt =====
-- The steps of an update that delete no Pod and leave the DoltDB object alone.
use doltdb_operator.Prelude.{
  ℕ, zero, suc, Bool, true, false, List, [], ◌∷◌, Option, none, some, Bytes, ◌≡◌, refl,
  if◌then◌else◌, ◌⊎◌, inl, inr,
}
use doltdb_operator.Effect.{Op, pure}
use doltdb_operator.Effect.Keeps.{Keeps, keeps_rules, Keeps-bind, Keeps-pure, Keeps-if}
use doltdb_operator.Api.DoltDb.{DoltDb}
use doltdb_operator.Api.Pod.{Pod}
use doltdb_operator.Dolt.{Role}
use doltdb_operator.Cluster.{Env, State}
use doltdb_operator.Cluster.Traces.{Quiet, Keeps-call}
use doltdb_operator.Sql.{
  TransitionStandbyOpts, get_role_and_epoch, get_cluster_status, assume_role, transition_to_standby,
}
use doltdb_operator.Health.{
  healthy_dolt_db_standbys, standby_host_fqdns, is_dolt_db_replica_healthy,
}
use doltdb_operator.PodRoles.{mark_role}
use doltdb_operator.Update.{get_revision, get_pods_by_role, role_set, wait_for_ready_status}
use doltdb_operator.Update.Primary.{
  poll, pod_is_updated, poll_until_pod_updated, check_lag, caught_up_from,
  wait_for_replication_caught_up,
}

pub ruleset quiet_rules = (keeps_rules, Keeps-call, refl)

module _ {d : DoltDb} {names : List Bytes} (env : Env) where
  pub get_revision-Quiet : Keeps (Quiet d names) (get_revision env)
  unfolding get_revision
  get_revision-Quiet = search quiet_rules

  role_set-Quiet : (n : ℕ) (o : Option Pod × List Pod) → Keeps (Quiet d names) (role_set n o)
  role_set-Quiet n (none, ps) = search quiet_rules
  role_set-Quiet n (some p, ps) = search quiet_rules

  pub get_pods_by_role-Quiet : Keeps (Quiet d names) (get_pods_by_role env)
  unfolding get_pods_by_role
  get_pods_by_role-Quiet = search (quiet_rules, role_set-Quiet) depth 12

  pub wait_for_ready_status-Quiet : Keeps (Quiet d names) (wait_for_ready_status env)
  unfolding wait_for_ready_status
  wait_for_ready_status-Quiet = search quiet_rules depth 8

  pub get_role_and_epoch-Quiet : (i : ℕ) → Keeps (Quiet d names) (get_role_and_epoch env i)
  unfolding get_role_and_epoch
  get_role_and_epoch-Quiet i = search quiet_rules depth 8

  pub get_cluster_status-Quiet : (i : ℕ) → Keeps (Quiet d names) (get_cluster_status env i)
  unfolding get_cluster_status
  get_cluster_status-Quiet i = search quiet_rules depth 8

  pub assume_role-Quiet : (i : ℕ) (r : Role) (e : ℕ) → Keeps (Quiet d names) (assume_role env i r e)
  unfolding assume_role
  assume_role-Quiet i r e = search quiet_rules depth 8

  pub transition_to_standby-Quiet :
      (i : ℕ) (o : TransitionStandbyOpts) → Keeps (Quiet d names) (transition_to_standby env i o)
  unfolding transition_to_standby
  transition_to_standby-Quiet i o = search quiet_rules depth 8

  pub healthy_dolt_db_standbys-Quiet : Keeps (Quiet d names) (healthy_dolt_db_standbys env)
  unfolding healthy_dolt_db_standbys
  healthy_dolt_db_standbys-Quiet = search quiet_rules depth 8

  pub standby_host_fqdns-Quiet : Keeps (Quiet d names) (standby_host_fqdns env)
  unfolding standby_host_fqdns
  standby_host_fqdns-Quiet = search (quiet_rules, healthy_dolt_db_standbys-Quiet) depth 8

  pub is_dolt_db_replica_healthy-Quiet :
      (i : ℕ) → Keeps (Quiet d names) (is_dolt_db_replica_healthy env i)
  unfolding is_dolt_db_replica_healthy
  is_dolt_db_replica_healthy-Quiet i = search quiet_rules depth 8

  pub mark_role-Quiet : (p : Pod) (r : Role) → Keeps (Quiet d names) (mark_role env p r)
  unfolding mark_role
  mark_role-Quiet p r = search quiet_rules depth 8

  pod_is_updated-Quiet : (n r : Bytes) → Keeps (Quiet d names) (pod_is_updated env n r)
  unfolding pod_is_updated
  pod_is_updated-Quiet n r = search quiet_rules depth 10

  poll-Quiet :
      (k : ℕ) (m : Op State Bool) → Keeps (Quiet d names) m → Keeps (Quiet d names) (poll k m)
  unfolding poll
  poll-Quiet zero m h = search quiet_rules
  poll-Quiet (suc k) m h =
      Keeps-bind m _ h
        (λ done. Keeps-if done (pure tt) (poll k m) (Keeps-pure tt) (poll-Quiet k m h))

  pub poll_until_pod_updated-Quiet :
      (n r : Bytes) → Keeps (Quiet d names) (poll_until_pod_updated env n r)
  unfolding poll_until_pod_updated
  poll_until_pod_updated-Quiet n r = search (quiet_rules, poll-Quiet, pod_is_updated-Quiet) depth 8

  check_lag-Quiet : (i : ℕ) → Keeps (Quiet d names) (check_lag env i)
  unfolding check_lag
  check_lag-Quiet i = search (quiet_rules, get_cluster_status-Quiet) depth 8

  caught_up_from-Quiet : (i : Option ℕ) → Keeps (Quiet d names) (caught_up_from env i)
  caught_up_from-Quiet none = search quiet_rules
  caught_up_from-Quiet (some i) =
      search (quiet_rules, check_lag-Quiet, healthy_dolt_db_standbys-Quiet) depth 8

  pub wait_for_replication_caught_up-Quiet :
      Keeps (Quiet d names) (wait_for_replication_caught_up env)
  unfolding wait_for_replication_caught_up
  wait_for_replication_caught_up-Quiet = search (quiet_rules, caught_up_from-Quiet) depth 8
