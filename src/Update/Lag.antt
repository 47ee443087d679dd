-- ===== src/Update/Lag.antt =====
-- The primary is not updated while its standbys lag or report errors.
use doltdb_operator.Prelude.{
  ℕ, ◌≤◌, true, false, List, [], ◌∷◌, Option, none, some, Bytes, ◌≡◌, refl, ◌≢◌, ◌↔◌, if◌then◌else◌,
  ◌⊎◌, inl, inr, Bool-cases, is_empty, All, arith, ◌||◌,
}
use mathlib.Core.Bool.{false≢true}
use mathlib.Core.Path.{subst, sym}
use doltdb_operator.Effect.{
  Requeue, nothing, again, after, Result, ok, err, Op, pure, fail, resume, ◌>>=◌, is_zero, attempt,
}
use doltdb_operator.Effect.Keeps.{Keeps, Keeps-pure}
use doltdb_operator.Effect.Ends.{Ends, Ends-Keeps, Ends-if, Ends-bind}
use doltdb_operator.Api.DoltDb.{DoltDb, replication_enabled, is_replication_configured}
use doltdb_operator.Api.Pod.{Pod, pod_updated}
use doltdb_operator.Dolt.{DoltStatus}
use doltdb_operator.Cluster.{Env, State, Trace, call}
use doltdb_operator.Cluster.Traces.{Quiet, deletions}
use doltdb_operator.Sql.{get_cluster_status}
use doltdb_operator.Update.{
  PodRoleSet, update_primary, update_replicas, update_stale, reconcile_updates,
}
use doltdb_operator.Update.Primary.{
  lags, has_error, check_statuses, judge_statuses, check_lag, caught_up_from,
  wait_for_replication_caught_up,
}
use doltdb_operator.Update.Quiet.{wait_for_replication_caught_up-Quiet, wait_for_ready_status-Quiet}
use doltdb_operator.Update.Deletions.{update_pod-AtMost}
use doltdb_operator.Update.Order.{Next, DeletesNext, guarded_deletes, wrapped-Ends, left-Next}

-- A status that does not hold the update up: the lag is at most 5000 ms or unknown, and there is no
-- error text.
abbrev pub IsFine : DoltStatus → Type 0
IsFine s =
    ((s.replication_lag ≡ none) ⊎ ((lag : ℕ) × (s.replication_lag ≡ some lag) × (lag ≤ 5000)))
    × ((s.current_error ≡ none) ⊎ (s.current_error ≡ some []))

lags_fine :
    (o : Option ℕ) → lags o ≡ false → (o ≡ none) ⊎ ((lag : ℕ) × (o ≡ some lag) × (lag ≤ 5000))
lags_fine none h = inl refl
lags_fine (some lag) h = inr (lag, refl, ground arith)

error_fine : (o : Option Bytes) → has_error o ≡ false → (o ≡ none) ⊎ (o ≡ some [])
error_fine none h = inl refl
error_fine (some []) h = inr refl
error_fine (some (c ∷ e)) h = cc

check_statuses-IsFine : (ss : List DoltStatus) → is_zero (check_statuses ss) ≡ true → All IsFine ss
unfolding check_statuses
check_statuses-IsFine [] h = tt
check_statuses-IsFine (s ∷ rest) h =
    elim (Bool-cases (lags s.replication_lag || has_error s.current_error)) [
      | inl bad ↦ absurd (false≢true (rw bad at h))
      | inr fine ↦ (
        (lags_fine s.replication_lag (ground arith), error_fine s.current_error (ground arith)),
        check_statuses-IsFine rest (rw fine at h),
      )
    ]

fine_check_statuses : (ss : List DoltStatus) → All IsFine ss → check_statuses ss ≡ nothing
unfolding check_statuses
fine_check_statuses [] h = refl
fine_check_statuses (s ∷ rest) h = ground (arith, fine_check_statuses rest h.1)

-- The check of what the primary reports lets the update go on exactly when there is a report and
-- every status of it has a lag of at most 5000 ms or none, and no error text.
judge_statuses-IsFine :
    (ss : List DoltStatus) → (judge_statuses ss ≡ nothing) ↔ ((ss ≢ []) × All IsFine ss)
unfolding judge_statuses
judge_statuses-IsFine [] = (λ e. absurd (ground arith), λ h. absurd (h.0 refl))
judge_statuses-IsFine (s ∷ rest) = (
  λ e. ((λ n. cc), check_statuses-IsFine (s ∷ rest) (rw e refl)),
  λ h. fine_check_statuses (s ∷ rest) h.1,
)

-- An answer that stops the pass: an error, or a delay.
abbrev Stops : Result Requeue → Type 0
Stops (err e) = Unit
Stops (ok r) = is_zero r ≡ false

check_statuses_stops :
    (ss : List DoltStatus) → ¬ All IsFine ss → is_zero (check_statuses ss) ≡ false
check_statuses_stops ss bad = elim (Bool-cases (is_zero (check_statuses ss))) [
  | inl zero ↦ absurd (bad (check_statuses-IsFine ss zero))
  | inr stop ↦ stop
]

judge_statuses_stops :
    (ss : List DoltStatus) → ¬ ((ss ≢ []) × All IsFine ss) → is_zero (judge_statuses ss) ≡ false
unfolding judge_statuses
judge_statuses_stops [] bad = refl
judge_statuses_stops (s ∷ rest) bad = check_statuses_stops (s ∷ rest) (λ h. bad ((λ n. cc), h))

-- The stale replica that is next, and never the primary.
abbrev pub stale_replica : Bytes → List Pod → Option Pod
stale_replica revision [] = none
stale_replica revision (p ∷ ps) =
    let rest = stale_replica revision ps in if pod_updated p revision then rest else some p

abbrev pub next_replica : Bytes → PodRoleSet → Option Pod
next_replica revision pods = stale_replica revision pods.replicas

module _ (env : Env) (statuses : List DoltStatus) (i : ℕ)
    (reachable : (t : Trace) → env.connect t i ≡ ok tt)
    (reported : (t : Trace) → env.query_cluster_status t i ≡ ok statuses)
    (bad : ¬ ((statuses ≢ []) × All IsFine statuses)) where
  check_lag-Stops : (s : State) → Stops (check_lag env i s).0
  unfolding check_lag attempt call get_cluster_status
  check_lag-Stops s = rw (reachable, reported) (judge_statuses_stops statuses bad)

  standbys_then_lag :
      (r : Result (List Pod)) (s : State)
      → Stops
          (resume r
            (λ ps. if is_empty ps then pure (after 2) else check_lag env i)
            (λ _. pure (after 2))
            s).0
  unfolding pure
  standbys_then_lag (err e) s = refl
  standbys_then_lag (ok []) s = refl
  standbys_then_lag (ok (p ∷ ps)) s = check_lag-Stops s

  caught_up_from-Stops : (o : Option ℕ) (s : State) → o ≡ some i → Stops (caught_up_from env o s).0
  unfolding attempt
  caught_up_from-Stops none s h = refl
  caught_up_from-Stops (some j) s h =
      subst (λ o. Stops (caught_up_from env o s).0) (sym h) (standbys_then_lag _ _)

  wait-Stops :
      (s : State)
      → replication_enabled s.doltdb ≡ true
      → s.doltdb.status.current_primary_pod_index ≡ some i
      → Stops (wait_for_replication_caught_up env s).0
  unfolding wait_for_replication_caught_up ◌>>=◌
  wait-Stops s enabled at_i = rw enabled (elim (Bool-cases (is_replication_configured s.doltdb)) [
    | inl e ↦ rw e (caught_up_from-Stops _ s at_i)
    | inr e ↦ rw e tt
  ])

  stopped :
      (P : State → Type 0) (r : Result Requeue) (m : Op State Requeue) (u : State)
      → Stops r
      → P u
      → P (resume r (λ x. if is_zero x then m else pure x) fail u).1
  unfolding pure fail
  stopped P (err e) m u h p = p
  stopped P (ok x) m u h p = rw h p

  module _ (d : DoltDb) (names : List Bytes) (enabled : replication_enabled d ≡ true)
      (at_i : d.status.current_primary_pod_index ≡ some i) where
    update_primary_stops :
        (revision : Bytes) (p : Pod) → Keeps (Quiet d names) (update_primary env revision p)
    unfolding ◌>>=◌
    update_primary_stops revision p = record {
      at = λ s q.
          stopped (Quiet d names) _ _ _
            (wait-Stops s (subst (λ x. replication_enabled x ≡ true) (sym q.0) enabled)
              (subst (λ (x : DoltDb). x.status.current_primary_pod_index ≡ some i) (sym q.0) at_i))
            ((wait_for_replication_caught_up-Quiet env).at s q);
    }

    update_replicas_stops :
        (revision : Bytes) (p : Pod) (ps : List Pod)
        → Ends
            (Quiet d names)
            (Next (stale_replica revision ps) d names)
            (update_replicas env revision p ps)
    unfolding update_replicas
    update_replicas_stops revision p [] = record { at = (update_primary_stops revision p).at }
    update_replicas_stops revision p (q ∷ qs) = elim (Bool-cases (pod_updated q revision)) [
      | inl e ↦ rw e (update_replicas_stops revision p qs)
      | inr e ↦ rw e (wrapped-Ends _ _ again (update_pod-AtMost env q revision))
    ]

    update_stale_stops :
        (revision : Bytes) (pods : PodRoleSet)
        → Ends
            (Quiet d names)
            (Next (next_replica revision pods) d names)
            (update_stale env revision pods)
    unfolding update_stale
    update_stale_stops revision pods =
        let stay = left-Next (next_replica revision pods) in
        Ends-if _ _ _ (Ends-Keeps _ (Keeps-pure nothing) stay) (
          Ends-bind _ _ (wait_for_ready_status-Quiet env)
            (λ r.
              Ends-if (is_zero r) _ _ (update_replicas_stops revision pods.primary pods.replicas)
                (Ends-Keeps _ (Keeps-pure r) stay))
            stay)

-- While the server at the index of the primary can be reached and what it reports of replication is
-- not in order (no status at all, a lag above 5000 ms, or an error text), a pass of the updater over a
-- DoltDB with replication asks to delete no Pod but a stale replica of those that it listed: the
-- primary is left alone. Nothing is assumed of the other servers.
pub lagging_primary_is_kept :
    (env : Env) (statuses : List DoltStatus) (i : ℕ) (s : State)
    → s.doltdb.status.current_primary_pod_index ≡ some i
    → ((t : Trace) → env.connect t i ≡ ok tt)
    → ((t : Trace) → env.query_cluster_status t i ≡ ok statuses)
    → ¬ ((statuses ≢ []) × All IsFine statuses)
    → replication_enabled s.doltdb ≡ true
    → DeletesNext next_replica env s (deletions s.trace) (reconcile_updates env s).1
unfolding reconcile_updates ◌>>=◌
lagging_primary_is_kept env statuses i s at_i reachable reported bad enabled =
    guarded_deletes next_replica env s (deletions s.trace)
      (update_stale_stops env statuses i reachable reported bad s.doltdb (deletions s.trace) enabled
        at_i)
      _ refl (refl, refl)
