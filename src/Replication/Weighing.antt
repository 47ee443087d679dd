-- ===== src/Replication/Weighing.antt =====
-- `selectFailoverCandidate`: the loop keeps the freshest standby seen so far.
use doltdb_operator.Prelude.{ℕ, List, [], ◌∷◌, none, some, ◌≤◌, if◌then◌else◌, arith, ◌==◌}
use doltdb_operator.Effect.{Result, ok, err}
use doltdb_operator.Effect.Gives.{Gives, Any, Gives-Any, Gives-pure, Gives-attempt, Gives-bind}
use doltdb_operator.Api.Pod.{Pod}
use doltdb_operator.Dolt.{DbState, oldest_update}
use doltdb_operator.Naming.{pod_index}
use doltdb_operator.Cluster.{Env}
use doltdb_operator.Replication.Failover.{Best, better_than, weigh, weigh_answer, ask_pod, best_of}

-- The oldest update of the best server so far.
abbrev pub time_of : Best → ℕ
time_of none = 0
time_of (some (i, t)) = t

picked-grows :
    (i t : ℕ) (b : Best)
    → let next = if t == 0 then b else (if better_than b t then some (i, t) else b) in
      (time_of b ≤ time_of next) × (t ≤ time_of next)
picked-grows i t none = ground arith
picked-grows i t (some (j, u)) = ground arith

pub weigh-grows :
    (i : ℕ) (state : DbState) (b : Best)
    → (time_of b ≤ time_of (weigh i state b))
      × (oldest_update state.status ≤ time_of (weigh i state b))
unfolding weigh
weigh-grows i state b = picked-grows i (oldest_update state.status) b

answer-grows : (i : ℕ) (b : Best) (r : Result DbState) → time_of b ≤ time_of (weigh_answer i b r)
answer-grows i b (err e) = omega arith
answer-grows i b (ok state) = (weigh-grows i state b).0

module _ (env : Env) where
  asked-grows : (r : Result ℕ) (b : Best) → Gives (λ c. time_of b ≤ time_of c) Any (ask_pod env r b)
  asked-grows (err e) b = Gives-pure b (omega arith)
  asked-grows (ok i) b =
      Gives-attempt _ _ _ (Gives-Any _)
        (λ _ _. Gives-bind _ _ (Gives-Any _) (λ r _. Gives-pure _ (answer-grows i b r)) (λ e _. tt))
        (λ e _. Gives-pure b (omega arith))

  -- The loop never forgets a better server.
  pub best_of-grows :
      (t : ℕ) (b : Best) (pods : List Pod)
      → t ≤ time_of b
      → Gives (λ c. t ≤ time_of c) Any (best_of env b pods)
  unfolding best_of
  best_of-grows t b [] h = Gives-pure b h
  best_of-grows t b (p ∷ ps) h =
      Gives-bind _ _ (asked-grows (pod_index p.name) b)
        (λ next n. best_of-grows t next ps (omega (arith, h, n))) (λ e _. tt)
