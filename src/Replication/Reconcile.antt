-- ===== src/Replication/Reconcile.antt =====
-- pkg/controller/replication/controller.go: the reconciler of replication.
use doltdb_operator.Prelude.{
  ℕ, zero, suc, Bool, true, false, [], ◌∷◌, Option, none, some, Bytes, str_eq, ◌==◌, not,
  if◌then◌else◌, is_some, deref,
}
use doltdb_operator.Effect.{
  Requeue, nothing, after, Op, pure, fail, ◌>>=◌, ◌>>◌, wrap, stop_or, panic,
}
use doltdb_operator.Api.DoltDb.{
  DoltDb, DoltDbStatus, ReplicationState, ReplicationStatus, not_configured, replication_enabled,
}
use doltdb_operator.Api.Status.{is_switching_primary}
use doltdb_operator.Naming.{pod_name}
use doltdb_operator.Cluster.{Env, State, doltdb_now}
use doltdb_operator.Sql.{client_for_index, new_client_set}
use doltdb_operator.Health.{HealthOpts, all_endpoints, is_stateful_set_healthy}
use doltdb_operator.Replication.{
  configure_primary, configure_replica, current_primary_client, then_remove_client,
}
use doltdb_operator.Replication.Switchover.{reconcile_switchover}

abbrev lookup : Bytes → ReplicationStatus → Option ReplicationState
lookup pod [] = none
lookup pod ((name, state) ∷ rest) =
    let found = lookup pod rest in if str_eq name pod then some state else found

abbrev is_unconfigured : Option ReplicationState → Bool
is_unconfigured none = true
is_unconfigured (some not_configured) = true
is_unconfigured (some _) = false

-- `!ok || state == ReplicationStateNotConfigured`; a nil map has no key.
unfoldable pub needs_configuration : DoltDbStatus → Bytes → Bool
needs_configuration status pod = is_unconfigured (lookup pod (deref status.replication_status []))

module _ (env : Env) where
  abbrev pub configure_in_pod : ℕ → ℕ → Option ℕ → Op State (Unit {0})
  configure_in_pod index epoch none = fail panic
  configure_in_pod index epoch (some current) = then_remove_client index (
      if current == index
      then (wrap "error getting current primary client: %v" (current_primary_client env)
          >> configure_primary env index epoch)
      else (wrap "error getting replica client: %v" (client_for_index env index)
          >> configure_replica env index epoch))

  -- `reconcileReplicationInPod`; a primary index that is missing is a nil dereference.
  unfoldable pub reconcile_replication_in_pod : ℕ → ℕ → Op State (Unit {0})
  unfolding then_remove_client configure_primary configure_replica current_primary_client
      client_for_index
  reconcile_replication_in_pod index epoch = do
    d ← doltdb_now
    configure_in_pod index epoch d.status.current_primary_pod_index

  abbrev pub configure_if : Bool → ℕ → ℕ → Op State (Unit {0})
  configure_if b index epoch =
      if b
      then wrap "error configuring replication in Pod '%s': %v"
          (reconcile_replication_in_pod index epoch)
      else pure tt

  -- The rounds of the loop from Pod `i` on.
  unfoldable pub configure_pods : ℕ → ℕ → ℕ → Op State (Unit {0})
  unfolding reconcile_replication_in_pod needs_configuration
  configure_pods epoch i zero = pure tt
  configure_pods epoch i (suc n) = do
    d ← doltdb_now
    configure_if (not (is_some d.status.replication_status)) i epoch
    d' ← doltdb_now
    configure_if (needs_configuration d'.status (pod_name d.name i)) i epoch
    configure_pods epoch (suc i) n

  abbrev pub configure_all : DoltDb → Option ℕ → Option ℕ → Op State Requeue
  configure_all d none epoch = pure (after 1)
  configure_all d (some current) none = pure (after 1)
  configure_all d (some current) (some epoch) =
      configure_pods epoch 0 d.spec.replicas >> pure nothing

  -- `reconcileReplication`.
  unfoldable pub reconcile_replication : Op State Requeue
  unfolding configure_pods
  reconcile_replication = do
    d ← doltdb_now
    if is_switching_primary env.meta d
        then pure nothing
        else configure_all d d.status.current_primary_pod_index d.status.replication_epoch

  abbrev pub replication_health_opts : DoltDb → HealthOpts
  replication_health_opts d = record {
    desired_replicas = some d.spec.replicas;
    port = some d.spec.listener_port;
    endpoint_policy = some all_endpoints;
  }

  abbrev pub reconcile_healthy : DoltDb → Op State Requeue
  reconcile_healthy d = do
    healthy ←
        wrap "error checking DoltDB health: %v"
          (is_stateful_set_healthy env (replication_health_opts d))
    if not healthy
        then pure (after 1)
        else (new_client_set
            >> stop_or (reconcile_replication) (reconcile_switchover env >> pure nothing))

  -- `ReplicationReconciler.Reconcile`.
  unfoldable pub reconcile : Op State Requeue
  unfolding new_client_set is_stateful_set_healthy reconcile_replication reconcile_switchover
  reconcile = do
    d ← doltdb_now
    if not (replication_enabled d)
        then pure nothing
        else (if is_switching_primary env.meta d
            then (new_client_set >> (reconcile_switchover env >> pure nothing))
            else reconcile_healthy d)
