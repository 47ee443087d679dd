-- ===== src/Replication/Candidate.antt =====
-- Whom a failover promotes, and when there is none.
use doltdb_operator.Prelude.{
  ℕ, List, [], ◌∷◌, Bool, true, false, none, some, ◌≡◌, ◌≢◌, ◌⊎◌, refl, ◌∙◌, ap, if◌then◌else◌,
  arith, ◌==◌, inl, inr, Bool-cases, is_empty,
}
use mathlib.Core.Path.{subst}
use doltdb_operator.Effect.{message, Result, ok, err, pure, fail, lift, ◌>>=◌, ◌>>◌, attempt}
use doltdb_operator.Effect.Gives.{
  Gives, Good, Any, Gives-Any, Gives-fail, Gives-pure, Gives-lift, Gives-attempt, Gives-bind,
}
use doltdb_operator.Api.Pod.{Pod}
use doltdb_operator.Dolt.{DbState, DoltStatus, oldest_update}
use doltdb_operator.Naming.{pod_index}
use doltdb_operator.Cluster.{Env, State, Trace, call}
use doltdb_operator.Sql.{get_db_state, get_cluster_status, new_client_set}
use doltdb_operator.Replication.Failover.{
  Best, better_than, weigh, weigh_answer, ask_pod, best_of, require_best, select_failover_candidate,
  should_reconcile, reconcile_pod_not_ready, fail_over_from,
}

module _ (env : Env) (statuses : ℕ → List DoltStatus) where
  -- The best so far stands for a server that has replicated, with the time of its oldest update.
  abbrev pub Sound : Best → Type 0
  Sound none = Unit
  Sound (some (i, t)) = (t ≡ oldest_update (statuses i)) × (t ≢ 0)

  picked :
      (i t : ℕ) (b : Best)
      → (t ≢ 0 → t ≡ oldest_update (statuses i))
      → Sound b
      → Sound (if t == 0 then b else (if better_than b t then some (i, t) else b))
  picked i t b fresh h = elim (Bool-cases (t == 0)) [
    | inl e ↦ rw e h
    | inr e ↦ rw e (kept (better_than b t) (fresh (λ z. ground arith), λ z. ground arith))
  ]
    where
      kept :
          (c : Bool)
          → (t ≡ oldest_update (statuses i)) × (t ≢ 0)
          → Sound (if c then some (i, t) else b)
      kept true k = k
      kept false k = h

  weigh-Sound :
      (i : ℕ) (state : DbState) (b : Best)
      → (state.status ≡ []) ⊎ (state.status ≡ statuses i)
      → Sound b
      → Sound (weigh i state b)
  unfolding weigh oldest_update
  weigh-Sound i state b (inl none_answered) h =
      picked i (oldest_update state.status) b (λ n. absurd (n (ap oldest_update none_answered))) h
  weigh-Sound i state b (inr answered) h =
      picked i (oldest_update state.status) b (λ n. ap oldest_update answered) h

  -- The state has no statuses, or those of the server.
  abbrev Answered : ℕ → Result DbState → Type 0
  Answered i (err e) = Unit
  Answered i (ok state) = (state.status ≡ []) ⊎ (state.status ≡ statuses i)

  weigh_answer-Sound :
      (i : ℕ) (b : Best) (r : Result DbState) → Answered i r → Sound b → Sound (weigh_answer i b r)
  weigh_answer-Sound i b (err e) a h = h
  weigh_answer-Sound i b (ok state) a h = weigh-Sound i state b a h

  module _
      (reported : (t : Trace) (i : ℕ) (xs : List DoltStatus)
        → env.query_cluster_status t i ≡ ok xs
        → xs ≡ statuses i) where
    status_answer : (i : ℕ) → Gives (λ xs. xs ≡ statuses i) Any (get_cluster_status env i)
    unfolding get_cluster_status call
    status_answer i = record { at = λ s. good _ (λ xs e. reported _ i xs e) }
      where
        good :
            (r : Result (List DoltStatus))
            → ((xs : List DoltStatus) → r ≡ ok xs → xs ≡ statuses i)
            → Good (λ xs. xs ≡ statuses i) Any r
        good (ok xs) h = h xs refl
        good (err e) h = tt

    db_state_answer : (i : ℕ) → Gives (Answered i) Any (get_db_state env i)
    unfolding get_db_state
    db_state_answer i =
        Gives-attempt _ _ _ (Gives-Any _)
          (λ found _.
            Gives-attempt _ _ _ (Gives-Any _)
              (λ v _.
                Gives-attempt _ _ _ (status_answer i) (λ xs h. Gives-pure _ (inr h))
                  (λ e _. Gives-pure _ (inl refl)))
              (λ x _.
                Gives-attempt _ _ _ (status_answer i) (λ xs h. Gives-pure _ (inr h))
                  (λ e _. Gives-pure _ (inl refl))))
          (λ e _. Gives-pure _ tt)

    asked-Sound : (r : Result ℕ) (b : Best) → Sound b → Gives Sound Any (ask_pod env r b)
    asked-Sound (err e) b h = Gives-pure b h
    asked-Sound (ok i) b h =
        Gives-attempt _ _ _ (Gives-Any _)
          (λ _ _.
            Gives-bind _ _ (db_state_answer i) (λ r a. Gives-pure _ (weigh_answer-Sound i b r a h))
              (λ e _. tt))
          (λ e _. Gives-pure b h)

    pub best_of-Sound :
        (b : Best) (pods : List Pod) → Sound b → Gives Sound Any (best_of env b pods)
    unfolding best_of
    best_of-Sound b [] h = Gives-pure b h
    best_of-Sound b (p ∷ ps) h =
        Gives-bind _ _ (asked-Sound (pod_index p.name) b h) (λ next n. best_of-Sound next ps n)
          (λ e _. tt)

    -- A server is fresh when the oldest of its updates is known.
    abbrev Replicated : ℕ → Type 0
    Replicated i = oldest_update (statuses i) ≢ 0

    require-Sound : (b : Best) → Sound b → Good Replicated Any (require_best b)
    require-Sound none h = tt
    require-Sound (some (i, t)) h = λ z. h.1 (h.0 ∙ z)

    candidate-Gives : Gives Replicated Any (select_failover_candidate env)
    unfolding select_failover_candidate
    candidate-Gives =
        Gives-bind _ _ (Gives-Any _) (λ standbys _. chosen (is_empty standbys) standbys) (λ e _. tt)
      where
        chosen :
            (b : Bool) (standbys : List Pod)
            → Gives Replicated Any (
                if b
                then fail (message "no healthy standbys available")
                else (new_client_set
                    >> (best_of env none standbys >>= λ best. lift (require_best best))))
        chosen true standbys = Gives-fail _ tt
        chosen false standbys =
            Gives-bind _ _ (Gives-Any _)
              (λ _ _.
                Gives-bind _ _ (best_of-Sound none standbys tt)
                  (λ best h. Gives-lift _ (require-Sound best h)) (λ e _. tt))
              (λ e _. tt)

    -- Where each server that reports statuses always reports the same, the server that a failover
    -- selects by its data has replicated: the oldest update that it reports is known. A Pod without
    -- data is never selected.
    candidate_has_replicated :
        (i : ℕ) (s : State)
        → (select_failover_candidate env s).0 ≡ ok i
        → oldest_update (statuses i) ≢ 0
    candidate_has_replicated i s e = subst (Good Replicated Any) e (candidate-Gives.at s)

other_pod :
    (env : Env) (pod : Pod) (index current : ℕ) (s : State)
    → pod_index pod.name ≡ ok index
    → index ≢ current
    → fail_over_from env pod (some current) s ≡ (ok tt, s)
unfolding ◌>>=◌ attempt
other_pod env pod index current s indexed other = rw indexed (elim (Bool-cases (index == current)) [
  | inl e ↦ absurd (other (ground arith))
  | inr e ↦ rw e refl
])

-- While the primary's Pod is fine, a Pod of another index that is not ready changes nothing; nor
-- does any Pod where failover is not automatic or replication is not configured yet.
failover_only_of_primary :
    (env : Env) (pod : Pod) (index current : ℕ) (s : State)
    → s.doltdb.status.current_primary_pod_index ≡ some current
    → pod_index pod.name ≡ ok index
    → (should_reconcile s.doltdb ≡ false) ⊎ (index ≢ current)
    → reconcile_pod_not_ready env pod s ≡ (ok tt, s)
unfolding reconcile_pod_not_ready ◌>>=◌
failover_only_of_primary env pod index current s set indexed (inl off) = rw off refl
failover_only_of_primary env pod index current s set indexed (inr other) =
    decided (should_reconcile s.doltdb)
  where
    decided :
        (b : Bool)
        → (if b then fail_over_from env pod s.doltdb.status.current_primary_pod_index else pure tt)
            s
          ≡ (ok tt, s)
    decided false = refl
    decided true =
        ap (λ o. fail_over_from env pod o s) set ∙ other_pod env pod index current s indexed other
