-- ===== src/Scenarios/Switching.antt =====
-- The theorems on switchovers, failovers and scaling at a concrete cluster.
use doltdb_operator.Prelude.{
  if◌then◌else◌, ◌==◌, ℕ, true, false, List, [], ◌∷◌, Option, none, some, Bytes, codes, str_lt,
  last_part, split, atoi, ◌≡◌, ◌⊎◌, refl, arith,
}
use mathlib.Core.Path.{subst}
use doltdb_operator.Effect.{nothing, again, Error, Result, ok, err, message, pure, attempt, ◌>>=◌}
use doltdb_operator.Api.DoltDb.{DoltDb}
use doltdb_operator.Api.Status.{
  is_updating, is_switching_primary, is_resizing_storage, is_waiting_for_storage_resize,
}
use doltdb_operator.Api.Pod.{Pod, is_pod_ready}
use doltdb_operator.Dolt.{DoltStatus, Role, is_standby, primary, standby}
use doltdb_operator.Naming.{pod_index}
use doltdb_operator.Cluster.{Env, State, Pvc}
use doltdb_operator.Cluster.Traces.{assumed_roles}
use doltdb_operator.Replication.Switchover.{switch_over, cluster_context}
use doltdb_operator.Replication.Safety.{switch_over_promotes_at_most_one}
use doltdb_operator.Replication.Writable.{writable_primary_stops_switchover}
use doltdb_operator.Replication.Outcome.{Recorded, switch_over-Switched}
use doltdb_operator.Replication.Reconcile.{reconcile, reconcile_replication}
use doltdb_operator.Replication.Epochs.{DueSince, reconcile_replication_due}
use doltdb_operator.Replication.Stuck.{switching_to_itself_stays}
use doltdb_operator.Replication.Failover.{select_failover_candidate}
use doltdb_operator.Controller.{run_phases, reconcile_pre_scale_down}
use doltdb_operator.Controller.ScaleDown.{Doomed, scale_down_blocks_phases}
use doltdb_operator.Storage.{reconcile_storage}
use doltdb_operator.Storage.Interrupted.{interrupted_resize_stays}
use doltdb_operator.Storage.Growth.{Grown, requests, reconcile_storage-Grown}
use doltdb_operator.Update.{should_reconcile_updates}
use doltdb_operator.Scenarios.{
  pod_at, cluster, desired_at, switching, resizing, state, second_pod, two_replicas,
}

abbrev moving : State
moving = state (desired_at 1 [])

echoed : (d d' : DoltDb) → ok d ≡ ok d' → d' ≡ d
echoed d d' e = cc

switch_over_promotes_at_most_one_example :
    (assumed_roles (switch_over (cluster standby) moving.doltdb [] moving).1.trace ≡ [])
    ⊎ (assumed_roles (switch_over (cluster standby) moving.doltdb [] moving).1.trace
        ≡ (1, primary, (cluster_context moving.doltdb []).next_epoch) ∷ [])
switch_over_promotes_at_most_one_example =
    switch_over_promotes_at_most_one (cluster standby) (λ t d d' e. echoed d d' e) moving.doltdb []
      moving

ready_pod : (name : Bytes) (pod : Pod) → ok (pod_at name) ≡ ok pod → is_pod_ready pod ≡ true
unfolding is_pod_ready
ready_pod name pod e = let q : pod_at name ≡ pod = cc in subst (λ p. is_pod_ready p ≡ true) q refl

writable :
    (r : Role) (e : ℕ)
    → ◌≡◌ {A = Result (Option (Role × ℕ))} (ok (some (primary, 4))) (ok (some (r, e)))
    → is_standby r ≡ false
writable r e h = let q : primary ≡ r = cc in subst (λ x. is_standby x ≡ false) q refl

-- The server at the first index reports to be the primary, the others to be standbys.
abbrev writable_first : Env
writable_first = record (cluster standby) {
  query_role = λ t i. ok (some ((if i == 0 then primary else standby), 4));
}

writable_primary_stops_switchover_example :
    ((e : Error) × ((switch_over writable_first moving.doltdb [] moving).0 ≡ err e))
    × (assumed_roles (switch_over writable_first moving.doltdb [] moving).1.trace ≡ [])
writable_primary_stops_switchover_example =
    writable_primary_stops_switchover writable_first 0 moving.doltdb [] moving refl
      (λ t pod e. ready_pod _ pod e) (λ t r e h. writable r e h)
      (λ t e n. (message "not enough standbys", refl, refl)) (λ t d d' e. echoed d d' e)

succeeds : (switch_over (cluster standby) moving.doltdb [] moving).0 ≡ ok tt
unfolding switch_over ◌>>=◌ attempt is_pod_ready
succeeds = refl

switch_over-Switched_example :
    Recorded
      (cluster standby)
      1
      (cluster_context moving.doltdb []).next_epoch
      (switch_over (cluster standby) moving.doltdb [] moving).1
switch_over-Switched_example =
    switch_over-Switched (cluster standby) (λ t d d' e. echoed d d' e) moving.doltdb [] moving
      succeeds

reconcile_replication_due_example :
    ((reconcile_replication (cluster standby) (state (desired_at 0 []))).1.doltdb ≡ desired_at 0 [])
    × DueSince 0 4 []
        (assumed_roles (reconcile_replication (cluster standby) (state (desired_at 0 []))).1.trace)
reconcile_replication_due_example =
    reconcile_replication_due (cluster standby) 0 4 (state (desired_at 0 [])) refl refl

switching_to_itself_stays_example :
    ((reconcile (cluster standby) (state (desired_at 0 (switching ∷ [])))).1.doltdb
      ≡ desired_at 0 (switching ∷ []))
    × (assumed_roles (reconcile (cluster standby) (state (desired_at 0 (switching ∷ [])))).1.trace
        ≡ [])
    × (should_reconcile_updates
          (cluster standby).meta
          (reconcile (cluster standby) (state (desired_at 0 (switching ∷ [])))).1.doltdb
        ≡ false)
unfolding is_switching_primary
switching_to_itself_stays_example =
    switching_to_itself_stays (cluster standby) (state (desired_at 0 (switching ∷ []))) refl refl
      refl

-- A cluster whose servers have each replicated one database.
abbrev replicated : List DoltStatus
replicated =
    record {
      database = codes "app";
      role = standby;
      epoch = 4;
      remote = [];
      replication_lag = some 0;
      last_update = some 7;
      current_error = none;
    }
    ∷ []

abbrev replicating : Env
replicating = record (cluster standby) { query_cluster_status = λ t i. ok replicated }

reported : (xs : List DoltStatus) → ok replicated ≡ ok xs → xs ≡ replicated
reported xs e = cc

selected : (select_failover_candidate replicating moving).0 ≡ ok 1
unfolding select_failover_candidate pod_index ◌>>=◌ attempt str_lt last_part split atoi is_pod_ready
selected = refl

second_index : pod_index second_pod.name ≡ ok 1
unfolding pod_index last_part split atoi
second_index = refl

-- A primary at the second index, and one replica asked for.
abbrev shrinking : State
shrinking = state (record (desired_at 0 []) {
  spec = record (desired_at 0 []).spec { replicas = 1 };
  status = record (desired_at 0 []).status { current_primary_pod_index = some 1 };
})

scale_down_blocks_phases_example :
    let phases = reconcile_pre_scale_down (cluster standby) ∷ reconcile (cluster standby) ∷ [] in
    ((run_phases (cluster standby) phases shrinking).0 ≡ ok again)
    × Doomed
        (cluster standby)
        two_replicas
        (λ t. refl)
        (λ t d. refl)
        1
        (run_phases (cluster standby) phases shrinking).1.doltdb
    × (assumed_roles (run_phases (cluster standby) phases shrinking).1.trace ≡ [])
scale_down_blocks_phases_example =
    scale_down_blocks_phases (cluster standby) two_replicas (λ t. refl) (λ t d. refl) 1
      (reconcile (cluster standby) ∷ []) shrinking (refl, refl, ground arith, ground arith)

-- A resize that was interrupted: marked as resizing, the StatefulSet at the desired size.
abbrev interrupted : State
interrupted = state (desired_at 0 (resizing ∷ []))

interrupted_resize_stays_example :
    ((reconcile_storage (cluster standby) (pure nothing) interrupted).0 ≡ ok nothing)
    × ((reconcile_storage (cluster standby) (pure nothing) interrupted).1.doltdb
        ≡ interrupted.doltdb)
    × (should_reconcile_updates (cluster standby).meta interrupted.doltdb ≡ false)
unfolding is_resizing_storage is_waiting_for_storage_resize
interrupted_resize_stays_example =
    interrupted_resize_stays (cluster standby) (pure nothing) 10 two_replicas interrupted
      (λ t. refl) refl refl refl refl

-- The spec asks for volumes of 20, and there is one claim.
abbrev claim : Pvc
claim = record { name = codes "data-db-0"; request = 10; conditions = [] }

abbrev with_claim : Env
with_claim = record (cluster standby) { list_pvcs = λ t. ok (claim ∷ []) }

abbrev to_grow : State
to_grow =
    let d = desired_at 0 [] in
    state (record d { spec = record d.spec { storage = record d.spec.storage { size = some 20 } } })

reconcile_storage-Grown_example :
    Grown
      (some 10)
      (some 20)
      []
      (requests (reconcile_storage with_claim (pure nothing) to_grow).1.trace)
unfolding pure
reconcile_storage-Grown_example =
    reconcile_storage-Grown with_claim (pure nothing) two_replicas to_grow (λ t. refl) (λ t. refl)

one_request : requests (reconcile_storage with_claim (pure nothing) to_grow).1.trace ≡ 20 ∷ []
unfolding reconcile_storage ◌>>=◌ attempt is_updating is_switching_primary
    is_waiting_for_storage_resize
one_request = refl
