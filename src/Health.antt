-- ===== src/Health.antt =====
-- pkg/health: the health of a StatefulSet, of its Pods and of its standbys.
use doltdb_operator.Prelude.{
  ℕ, suc, ◌+◌, Bool, true, false, List, [], ◌∷◌, Option, none, some, Bytes, str_lt, ltb, ◌==◌, ◌&&◌,
  not, if◌then◌else◌, deref, any, is_empty,
}
use doltdb_operator.Effect.{
  Error, message, panic, no_healthy_instances, Result, ok, err, is_not_found, Op, pure, fail, lift,
  ◌>>=◌, attempt, wrap,
}
use doltdb_operator.Api.DoltDb.{DoltDb, internal_service_name}
use doltdb_operator.Api.Pod.{Pod, is_pod_ready}
use doltdb_operator.Naming.{pod_name, pod_index, pod_short_fqdn}
use doltdb_operator.Cluster.{
  Env, State, StatefulSet, EndpointSlice, call, doltdb_now, get_stateful_set, list_pods, get_pod,
  listed_endpoint_slices,
}

pub data EndpointPolicy : Type 0 where
  all_endpoints at_least_one other_policy : EndpointPolicy

-- `HealthOpts` after the options are applied.
pub record HealthOpts : Type 0 where
  pub desired_replicas : Option ℕ
  pub port : Option ℕ
  pub endpoint_policy : Option EndpointPolicy

abbrev is_port : ℕ → Option ℕ → Bool
is_port port none = false
is_port port (some p) = p == port

-- `sliceHasPort`.
unfoldable pub slice_has_port : EndpointSlice → ℕ → Bool
slice_has_port slice port = any (is_port port) slice.ports

abbrev is_ready_endpoint : Option Bool → Bool
is_ready_endpoint e = deref e false

unfoldable pub count_ready : List (Option Bool) → ℕ
count_ready [] = 0
count_ready (e ∷ rest) = if is_ready_endpoint e then suc (count_ready rest) else count_ready rest

-- `countReadyEndpoints`.
unfoldable pub count_ready_endpoints : List EndpointSlice → ℕ → ℕ
unfolding count_ready slice_has_port
count_ready_endpoints [] port = 0
count_ready_endpoints (slice ∷ rest) port =
    (if slice_has_port slice port then count_ready slice.endpoints else 0)
    + count_ready_endpoints rest port

abbrev meets_policy : EndpointPolicy → ℕ → ℕ → Result Bool
meets_policy all_endpoints ready_count desired = ok (ready_count == desired)
meets_policy at_least_one ready_count desired = ok (ltb 0 ready_count)
meets_policy other_policy ready_count desired = err (message "unsupported EndpointPolicy '%v'")

abbrev judge_slices : ℕ → EndpointPolicy → ℕ → List EndpointSlice → Result Bool
judge_slices port policy desired [] = ok false
judge_slices port policy desired (slice ∷ rest) =
    meets_policy policy (count_ready_endpoints (slice ∷ rest) port) desired

-- The insertion of `sort.Slice`, by a strict order on names.
insert_pod : (Bytes → Bytes → Bool) → Pod → List Pod → List Pod
insert_pod before p [] = p ∷ []
insert_pod before p (q ∷ qs) =
    let rest = insert_pod before p qs in if before q.name p.name then q ∷ rest else p ∷ q ∷ qs

unfoldable pub sort_pods : (Bytes → Bytes → Bool) → List Pod → List Pod
unfolding insert_pod
sort_pods before [] = []
sort_pods before (p ∷ ps) = insert_pod before p (sort_pods before ps)

-- `sortPodList`.
unfoldable pub sort_pod_list : List Pod → List Pod
unfolding sort_pods
sort_pod_list = sort_pods str_lt

abbrev index_error : Error
index_error = message "error getting index for Pod '%s': %v"

abbrev cons_if : Bool → Pod → Result (List Pod) → Result (List Pod)
cons_if b p (err e) = err e
cons_if true p (ok ps) = ok (p ∷ ps)
cons_if false p (ok ps) = ok ps

-- The loop of `HealthyDoltDBStandbys`; a missing primary index is a nil dereference.
unfoldable pub standbys_of : Option ℕ → List Pod → Result (List Pod)
standbys_of current [] = ok []
standbys_of current (p ∷ ps) =
    let rest = standbys_of current ps in
    elim (pod_index p.name) [
      | err e ↦ err index_error
      | ok index ↦ elim current [
        | none ↦ err panic
        | some primary ↦ cons_if (not (index == primary) && is_pod_ready p) p rest
      ]
    ]

-- The loop of `HealthyDoltDBReplica`.
unfoldable pub first_replica : ℕ → List Pod → Result ℕ
first_replica primary [] = err no_healthy_instances
first_replica primary (p ∷ ps) =
    let rest = first_replica primary ps in
    elim (pod_index p.name) [
      | err e ↦ err index_error
      | ok index ↦ if not (index == primary) && is_pod_ready p then ok index else rest
    ]

abbrev cons_host : DoltDb → Result ℕ → Result (List Bytes) → Result (List Bytes)
cons_host d (err e) rest = err index_error
cons_host d (ok index) (err e) = err e
cons_host d (ok index) (ok hosts) =
    ok (pod_short_fqdn d.name d.namespace index (internal_service_name d) ∷ hosts)

unfoldable pub hosts_of : DoltDb → List Pod → Result (List Bytes)
hosts_of d [] = ok []
hosts_of d (p ∷ ps) = cons_host d (pod_index p.name) (hosts_of d ps)

module _ (env : Env) where
  abbrev judge : HealthOpts → StatefulSet → Op State Bool
  judge opts sts =
      let desired = deref opts.desired_replicas (deref sts.spec_replicas 1) in
      if not (sts.counts.ready_replicas == desired) then pure false else elim opts.port [
        | none ↦ pure true
        | some port ↦ elim opts.endpoint_policy [
          | none ↦ pure true
          | some policy ↦ do
            slices ← call listed_endpoint_slices env.list_endpoint_slices
            lift (judge_slices port policy desired slices)
        ]
      ]

  -- `IsStatefulSetHealthy`, of the DoltDB's StatefulSet and internal Service.
  unfoldable pub is_stateful_set_healthy : HealthOpts → Op State Bool
  unfolding call count_ready_endpoints
  is_stateful_set_healthy opts =
      attempt (get_stateful_set env) (judge opts)
        (λ e. if is_not_found e then pure false else fail e)

  -- `HealthyDoltDBReplica`.
  unfoldable pub healthy_dolt_db_replica : Op State ℕ
  unfolding call first_replica sort_pod_list
  healthy_dolt_db_replica = do
    d ← doltdb_now
    elim d.status.current_primary_pod_index [
      | none ↦ fail (message "'status.currentPrimaryPodIndex' must be set")
      | some primary ↦ do
        pods ← wrap "error listing Pods: %v" (list_pods env)
        lift (first_replica primary (sort_pod_list pods))
    ]

  -- `IsDoltDBReplicaHealthy`: the Pod and its readiness.
  unfoldable pub is_dolt_db_replica_healthy : ℕ → Op State (Pod × Bool)
  unfolding call
  is_dolt_db_replica_healthy index = do
    d ← doltdb_now
    pod ← get_pod env (pod_name d.name index)
    pure (pod, is_pod_ready pod)

  -- `HealthyDoltDBStandbys`.
  unfoldable pub healthy_dolt_db_standbys : Op State (List Pod)
  unfolding call standbys_of sort_pod_list
  healthy_dolt_db_standbys = do
    d ← doltdb_now
    pods ← wrap "error listing Pods: %v" (list_pods env)
    lift (standbys_of d.status.current_primary_pod_index (sort_pod_list pods))

  -- `StandbyHostFQDNs`.
  unfoldable pub standby_host_fqdns : Op State (List Bytes)
  unfolding healthy_dolt_db_standbys hosts_of
  standby_host_fqdns = do
    standbys ← wrap "error getting healthy standbys: %v" healthy_dolt_db_standbys
    d ← doltdb_now
    if is_empty standbys
        then fail (message "no healthy standbys available")
        else lift (hosts_of d standbys)
