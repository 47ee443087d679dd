-- ===== src/Update.antt =====
-- pkg/controller/statefulset/updater.go: replicas are updated first, one at a time, the primary
-- last, and the primary hands its role over before its Pod is deleted.
pub mod Primary
pub mod Deletions
pub mod Order
pub mod Promotion
pub mod Lag
pub mod Quiet
use doltdb_operator.Prelude.{
  ℕ, zero, suc, ◌+◌, Bool, true, false, List, [], ◌∷◌, Option, none, some, Bytes, str_eq, str_lt,
  ltb, ◌==◌, ◌&&◌, ◌||◌, not, if◌then◌else◌, deref, is_empty, length, map, ◌⊎◌, inl, inr, ◌++◌,
}
use doltdb_operator.Effect.{
  message, Op, Requeue, nothing, again, after, pure, fail, ◌>>=◌, ◌>>◌, attempt, wrap, stop_or,
  is_not_found,
}
use doltdb_operator.Api.Condition.{Meta}
use doltdb_operator.Api.DoltDb.{DoltDb, UpdateType, unset, replicas_first_primary_last}
use doltdb_operator.Api.Status.{is_resizing_storage, is_switching_primary}
use doltdb_operator.Api.Pod.{Pod, pod_updated}
use doltdb_operator.Health.{sort_pods}
use doltdb_operator.Cluster.{
  Env, State, StatefulSet, call, doltdb_now, get_stateful_set, list_pods, get_pod, delete_pod,
  got_doltdb,
}
use Primary.{wait_for_replication_caught_up, graceful_primary_update, update_pod}

abbrev is_operator_driven : UpdateType → Bool
is_operator_driven unset = true
is_operator_driven replicas_first_primary_last = true
is_operator_driven _ = false

-- `shouldReconcileUpdates`.
unfoldable pub should_reconcile_updates : Meta → DoltDb → Bool
should_reconcile_updates m d =
    if is_resizing_storage m d || is_switching_primary m d
    then false
    else is_operator_driven d.spec.update_strategy

pub record PodRoleSet : Type 0 where
  pub replicas : List Pod
  pub primary : Pod

unfoldable pub stale_names : List Pod → Bytes → List Bytes
stale_names [] revision = []
stale_names (p ∷ ps) revision =
    let rest = stale_names ps revision in if pod_updated p revision then rest else p.name ∷ rest

-- `getStalePodNames`.
unfoldable pub get_stale_pod_names : PodRoleSet → Bytes → List Bytes
unfolding stale_names
get_stale_pod_names pods revision =
    stale_names pods.replicas revision ++ stale_names (pods.primary ∷ []) revision

-- The loop that splits the listed Pods; of two Pods with the primary's name the later one counts.
unfoldable pub split_roles : Bytes → Option Pod → List Pod → Option Pod × List Pod
split_roles current primary [] = (primary, [])
split_roles current primary (p ∷ ps) =
    if str_eq p.name current
    then split_roles current (some p) ps
    else (let (found, others) = split_roles current primary ps in (found, p ∷ others))

abbrev pub later_name : Bytes → Bytes → Bool
later_name a b = str_lt b a

abbrev pub role_set : ℕ → Option Pod × List Pod → Op State (Requeue ⊎ PodRoleSet)
role_set replicas (found, others) =
    if is_empty others && ltb 1 replicas
    then fail (message "no replica Pods found")
    else elim found [
      | none ↦ fail (message "primary Pod not found")
      | some p ↦ pure (inr (record { replicas = sort_pods later_name others; primary = p }))
    ]

module _ (env : Env) where
  -- `GetRevision`.
  unfoldable pub get_revision : Op State Bytes
  unfolding call
  get_revision = do sts ← get_stateful_set env; pure sts.update_revision

  -- `getPodsByRole`: a delay, or the Pods by their roles, the replicas in descending order of names.
  unfoldable pub get_pods_by_role : Op State (Requeue ⊎ PodRoleSet)
  unfolding call split_roles
  get_pods_by_role = do
    d ← doltdb_now
    let current = deref d.status.current_primary []
    if is_empty current
        then pure (inl (after 1))
        else if d.spec.replicas == 0
        then pure (inl (after 5))
        else do
          pods ← wrap "error listing Pods: %v" (list_pods env)
          if not (length pods == d.spec.replicas)
              then pure (inl (after 1))
              else role_set d.spec.replicas (split_roles current none pods)

  -- `waitForReadyStatus`.
  unfoldable pub wait_for_ready_status : Op State Requeue
  unfolding call
  wait_for_ready_status = do
    sts ← get_stateful_set env
    d ← doltdb_now
    if not (sts.counts.ready_replicas == d.spec.replicas) then pure (after 1) else pure nothing

  abbrev pub update_primary : Bytes → Pod → Op State Requeue
  update_primary revision primary = stop_or (wait_for_replication_caught_up env) (
      if pod_updated primary revision
      then pure nothing
      else (wrap "error updating primary Pod '%s': %v"
            (graceful_primary_update env primary revision)
          >> pure nothing))

  -- The loop over the replicas, and what follows it.
  unfoldable pub update_replicas : Bytes → Pod → List Pod → Op State Requeue
  update_replicas revision primary [] = update_primary revision primary
  update_replicas revision primary (p ∷ ps) =
      let rest = update_replicas revision primary ps in
      if pod_updated p revision
      then rest
      else (wrap "error updating replica Pod '%s': %v" (update_pod env p revision) >> pure again)

  unfoldable pub update_stale : Bytes → PodRoleSet → Op State Requeue
  unfolding get_stale_pod_names
  update_stale revision pods =
      if is_empty (get_stale_pod_names pods revision)
      then pure nothing
      else stop_or wait_for_ready_status (update_replicas revision pods.primary pods.replicas)

  abbrev pub with_pods : Bytes → Requeue ⊎ PodRoleSet → Op State Requeue
  with_pods revision (inl result) = pure result
  with_pods revision (inr pods) = update_stale revision pods

  abbrev pub with_revision : Bytes → Op State Requeue
  with_revision [] = pure (after 1)
  with_revision (c ∷ revision) = get_pods_by_role >>= with_pods (c ∷ revision)

  -- `reconcileUpdates`.
  unfoldable pub reconcile_updates : Op State Requeue
  reconcile_updates = do
    d ← doltdb_now
    if should_reconcile_updates env.meta d then get_revision >>= with_revision else pure nothing
