-- ===== src/Replication/Freshest.antt =====
-- `selectFailoverCandidate`: which of the standbys that answer a failover promotes.
use doltdb_operator.Prelude.{
  ℕ, List, [], ◌∷◌, In, Bool, true, false, none, some, ◌≡◌, ◌≤◌, ◌<◌, refl, ◌∙◌, sym, ap,
  if◌then◌else◌, arith, ◌==◌, inl, inr, Bool-cases, is_empty, any, ltb,
}
use mathlib.Core.Path.{subst}
use doltdb_operator.Effect.{
  message, Result, ok, err, pure, fail, lift, Op, resume, ◌>>=◌, ◌>>◌, attempt, wrap,
}
use doltdb_operator.Effect.Gives.{
  Gives, Good, Any, Gives-Any, Gives-fail, Gives-lift, Gives-pure, Gives-attempt, Gives-bind,
  Good-bind, Good-both,
}
use doltdb_operator.Effect.Keeps.{Keeps, keeps_rules}
use doltdb_operator.Effect.Steps.{bind-ok, wrap-ok}
use doltdb_operator.Api.Pod.{Pod}
use doltdb_operator.Dolt.{DbState, DoltStatus, Role, oldest_update}
use doltdb_operator.Naming.{pod_index}
use doltdb_operator.Cluster.{Env, State, Trace, connected, call}
use doltdb_operator.Sql.{
  client_for_index, add_client, get_db_state, get_role_and_epoch, get_version, get_cluster_status,
  new_client_set,
}
use doltdb_operator.Health.{healthy_dolt_db_standbys}
use doltdb_operator.Replication.Calls.{
  Stable, healthy_dolt_db_standbys_kept, client_for_index_kept, get_db_state_kept,
  new_client_set_kept,
}
use doltdb_operator.Replication.Failover.{
  Best, weigh, weigh_answer, ask_pod, best_of, require_best, select_failover_candidate,
}
use doltdb_operator.Replication.Candidate.{Sound, best_of-Sound}
use doltdb_operator.Replication.Weighing.{time_of, weigh-grows, best_of-grows}

-- No step of the failover changes how many replicas are asked for.
Holds : ℕ → State → Type 0
Holds j s = j < s.doltdb.spec.replicas

Holds-Stable : (j : ℕ) → Stable (Holds j)
unfolding Holds call
Holds-Stable j = record {
  of_call = λ e answer _. record { at = λ s h. h };
  of_clients = λ s cs h. h;
}

module _ (env : Env) (statuses : ℕ → List DoltStatus) (j : ℕ) (row : Role × ℕ)
    (connects : (t : Trace) → env.connect t j ≡ ok tt)
    (has_role : (t : Trace) → env.query_role t j ≡ ok (some row))
    (has_status : (t : Trace) → env.query_cluster_status t j ≡ ok (statuses j)) where
  added_answers : (s : State) → Good (λ _. Unit) (λ _. ⊥) (add_client env j s).0
  unfolding add_client ◌>>=◌ call attempt
  added_answers s = rw (connects (connected j ∷ s.trace)) tt

  found_answers :
      (b : Bool) (s : State)
      → Good (λ _. Unit) (λ _. ⊥) ((if b then pure tt else add_client env j) s).0
  unfolding pure
  found_answers true s = tt
  found_answers false s = added_answers s

  -- The server with the index has a client.
  client_answers : (s : State) → Holds j s → Good (λ _. Unit) (λ _. ⊥) (client_for_index env j s).0
  unfolding client_for_index Holds ◌>>=◌ attempt
  client_answers s h = elim (Bool-cases (ltb j s.doltdb.spec.replicas)) [
    | inl e ↦ rw e (found_answers (any (λ i. i == j) s.clients) s)
    | inr e ↦ absurd (ground arith)
  ]

  status_answers : Gives (λ xs. xs ≡ statuses j) (λ _. ⊥) (get_cluster_status env j)
  unfolding get_cluster_status call
  status_answers = record { at = λ s. rw (has_status _) refl }

  role_answers : Gives (λ _. Unit) (λ _. ⊥) (get_role_and_epoch env j)
  unfolding get_role_and_epoch call ◌>>=◌
  role_answers = record { at = λ s. rw (has_role _) tt }

  -- The state of the server has its statuses.
  Reports : Result DbState → Type 0
  Reports (err e) = ⊥
  Reports (ok state) = state.status ≡ statuses j

  state_answers : Gives Reports Any (get_db_state env j)
  unfolding get_db_state Reports
  state_answers =
      Gives-attempt _ _ _ role_answers
        (λ found _.
          Gives-attempt _ _ _ (Gives-Any (get_version env j))
            (λ v _. Gives-attempt _ _ _ status_answers (λ xs h. Gives-pure _ h) (λ e n. absurd n))
            (λ x _. Gives-attempt _ _ _ status_answers (λ xs h. Gives-pure _ h) (λ e n. absurd n)))
        (λ e n. absurd n)

  Covers : Best → Type 0
  Covers b = oldest_update (statuses j) ≤ time_of b

  answer-Covers : (b : Best) (r : Result DbState) → Reports r → Covers (weigh_answer j b r)
  unfolding Covers Reports
  answer-Covers b (err e) h = absurd h
  answer-Covers b (ok state) h =
      subst (λ xs. oldest_update xs ≤ time_of (weigh j state b)) h (weigh-grows j state b).1

  -- The standby itself is weighed.
  asked-Covers : (b : Best) (s : State) → Holds j s → Good Covers Any (ask_pod env (ok j) b s).0
  unfolding attempt
  asked-Covers b s h =
      weighed (client_for_index env j s).0 (client_for_index env j s).1 (client_answers s h)
    where
      weighed :
          (r : Result (Unit {0})) (t : State)
          → Good (λ _. Unit) (λ _. ⊥) r
          → Good Covers Any
              (resume r
                (λ _. get_db_state env j >>= λ state. pure (weigh_answer j b state))
                (λ _. pure b)
                t).0
      weighed (ok a) t k =
          (Gives-bind _ _ state_answers (λ r a. Gives-pure _ (answer-Covers b r a)) (λ e _. tt)).at
            t
      weighed (err e) t k = absurd k

  ask_pod_kept : (r : Result ℕ) (b : Best) → Keeps (Holds j) (ask_pod env r b)
  ask_pod_kept (err e) b = search keeps_rules
  ask_pod_kept (ok i) b =
      search (keeps_rules, client_for_index_kept, get_db_state_kept, Holds-Stable) depth 12

  best_of-Covers :
      (p : Pod)
      → pod_index p.name ≡ ok j
      → (b : Best) (pods : List Pod) (s : State) → In p pods
      → Holds j s
      → Good Covers Any (best_of env b pods s).0
  unfolding best_of Covers
  best_of-Covers p e b [] s at h = elim at [ ]
  best_of-Covers p e b (q ∷ ps) s (inl at) h =
      Good-bind Covers Covers (ask_pod env (pod_index q.name) b) (λ next. best_of env next ps) s
        (subst (λ r. Good Covers Any (ask_pod env r b s).0) (sym e ∙ ap (λ x. pod_index x.name) at)
          (asked-Covers b s h))
        (λ next n. (best_of-grows env (oldest_update (statuses j)) next ps n).at _)
  best_of-Covers p e b (q ∷ ps) s (inr at) h =
      Good-bind (λ _. Unit) Covers (ask_pod env (pod_index q.name) b) (λ next. best_of env next ps)
        s ((Gives-Any (ask_pod env (pod_index q.name) b)).at s)
        (λ next _. best_of-Covers p e next ps _ at ((ask_pod_kept (pod_index q.name) b).at s h))

  -- The server is at most as fresh as that with the index.
  Fresher : ℕ → Type 0
  Fresher i = oldest_update (statuses j) ≤ oldest_update (statuses i)

  required-Fresher :
      (b : Best) → Sound env statuses b × Covers b → Good Fresher Any (require_best b)
  unfolding Fresher Covers
  required-Fresher none h = tt
  required-Fresher (some (i, t)) h = subst (λ x. oldest_update (statuses j) ≤ x) h.0.0 h.1

  -- Where each server that reports statuses always reports the same: a failover that selects by its
  -- data selects a server at least as fresh, by the oldest of its updates, as any healthy standby
  -- within the bounds whose server can be connected to and answers the queries of its role and of
  -- its status.
  pub candidate_is_freshest :
      (reported : (t : Trace) (i : ℕ) (xs : List DoltStatus)
        → env.query_cluster_status t i ≡ ok xs
        → xs ≡ statuses i)
      (s : State) (standbys : List Pod) (p : Pod) (i : ℕ)
      → (healthy_dolt_db_standbys env s).0 ≡ ok standbys
      → In p standbys
      → pod_index p.name ≡ ok j
      → j < s.doltdb.spec.replicas
      → (select_failover_candidate env s).0 ≡ ok i
      → oldest_update (statuses j) ≤ oldest_update (statuses i)
  unfolding select_failover_candidate Holds Fresher
  candidate_is_freshest reported s standbys p i listed at e h selected =
      subst (Good Fresher Any) ((sym (ap (λ (x : Result ℕ × State). x.0) run)) ∙ selected)
        (chosen (is_empty standbys))
    where
      t : State
      t = (healthy_dolt_db_standbys env s).1

      rest : List Pod → Bool → Op State ℕ
      rest pods b =
          if b
          then fail (message "no healthy standbys available")
          else (new_client_set >> (best_of env none pods >>= λ best. lift (require_best best)))

      run : select_failover_candidate env s ≡ rest standbys (is_empty standbys) t
      run =
          bind-ok (wrap "error listing healthy standbys: %v" (healthy_dolt_db_standbys env))
            (λ pods. rest pods (is_empty pods))
            (wrap-ok "error listing healthy standbys: %v" (healthy_dolt_db_standbys env)
              (ap (λ r. (r, t)) listed))

      kept : Holds j t
      kept = (healthy_dolt_db_standbys_kept (Holds-Stable j) env).at s h

      chosen : (b : Bool) → Good Fresher Any (rest standbys b t).0
      chosen true = (Gives-fail {S = State} {Q = Fresher} {E = Any} _ tt).at t
      chosen false =
          Good-bind (λ _. Unit) Fresher new_client_set _ t ((Gives-Any new_client_set).at t)
            (λ _ _.
              Good-bind (λ b. Sound env statuses b × Covers b) Fresher (best_of env none standbys) _
                _
                (Good-both (Sound env statuses) Covers _
                  ((best_of-Sound env statuses reported none standbys tt).at _)
                  (best_of-Covers p e none standbys _ at
                    ((new_client_set_kept (Holds-Stable j) env).at t kept)))
                (λ b k. (Gives-lift {S = State} _ (required-Fresher b k)).at _))
