-- ===== src/Backup/Terminates.antt =====
-- A Backup whose server cannot be reached is failed for good after its retries.
use doltdb_operator.Prelude.{
  ℕ, zero, suc, false, ◌≡◌, inl, inr, refl, ap, ◌∙◌, ◌-◌, ◌<◌, arith, ◌||◌,
}
use doltdb_operator.Effect.{Requeue, nothing, Result, ok, err}
use doltdb_operator.Effect.Runs.{After}
use doltdb_operator.Backup.{Env, State, Backup, failed, is_completed, is_failed, get_backoff_limit}
use doltdb_operator.Backup.Reconcile.{reconcile_backup}
use doltdb_operator.Backup.Lifecycle.{over_stays}
use doltdb_operator.Backup.Refines.{reconcile_follows_lifecycle}
use doltdb_operator.Backup.Unreachable.{IsUnreachable, Failing, Never, pass-Failing}

module _ (env : Env) (b : Backup) where
  -- The state after some passes.
  abbrev pub passes : ℕ → State → State
  passes zero s = s
  passes (suc n) s = (reconcile_backup env b (passes n s)).1

  failed_stays : (m : ℕ) (s : State) → s.stored.phase ≡ failed → (passes m s).stored.phase ≡ failed
  failed_stays zero s h = h
  failed_stays (suc m) s h =
      let before = failed_stays m s h in
      over_stays (inr before) (reconcile_follows_lifecycle env b (passes m s)) ∙ before

  abbrev IsLive : ℕ → State → Type 0
  IsLive n s =
      ((is_completed s.stored.phase || is_failed s.stored.phase) ≡ false)
      × (s.stored.retry_count ≡ n)

  module _ (u : IsUnreachable env b) where
    abbrev Passed : ℕ → State → Type 0
    Passed n s =
        (a : Requeue) × ((reconcile_backup env b s).0 ≡ ok a)
        × Failing env b n a (reconcile_backup env b s).1

    pass-Passed : (n : ℕ) (s : State) → IsLive n s → Passed n s
    pass-Passed n s h =
        returned (reconcile_backup env b s).0 refl
          ((pass-Failing env b u n s.stored.phase h.0).at s (refl, h.1))
      where
        returned :
            (r : Result Requeue)
            → (reconcile_backup env b s).0 ≡ r
            → After (Failing env b n) (Never env b) r (reconcile_backup env b s).1
            → Passed n s
        returned (ok a) e f = (a, e, f)
        returned (err x) e f = absurd f

    -- Until the last retry, the Backup is live and each pass is counted.
    passes-IsLive :
        (s : State)
        → IsLive 0 s
        → (k : ℕ) → k < suc (get_backoff_limit b - 1)
        → IsLive k (passes k s)
    passes-IsLive s h zero below = h
    passes-IsLive s h (suc k) below =
        next (pass-Passed k (passes k s) (passes-IsLive s h k (omega arith)))
      where
        next : Passed k (passes k s) → IsLive (suc k) (passes (suc k) s)
        next (a, e, inl (more, result, phase, count)) =
            (ap (λ q. is_completed q || is_failed q) phase, count)
        next (a, e, inr (over, result, phase)) = absurd (omega arith)

    -- Where the API answers, the DoltDB is ready and its SQL server refuses each connection, a Backup
    -- that is not over and has no retries yet is failed on the server after as many passes as its limit,
    -- one at least, so after one retry fewer; the last of these asks for no further pass, and whatever passes follow,
    -- the Backup stays failed.
    pub limit_ends_retries :
        (s : State)
        → (is_completed s.stored.phase || is_failed s.stored.phase) ≡ false
        → s.stored.retry_count ≡ 0
        → (m : ℕ)
        → ((reconcile_backup env b (passes (get_backoff_limit b - 1) s)).0 ≡ ok nothing)
          × ((passes m (passes (suc (get_backoff_limit b - 1)) s)).stored.phase ≡ failed)
    limit_ends_retries s live none_yet m = last (
        pass-Passed (get_backoff_limit b - 1) before
          (passes-IsLive s (live, none_yet) _ (omega arith)))
      where
        before : State
        before = passes (get_backoff_limit b - 1) s

        last :
            Passed (get_backoff_limit b - 1) before
            → ((reconcile_backup env b before).0 ≡ ok nothing)
              × ((passes m (passes (suc (get_backoff_limit b - 1)) s)).stored.phase ≡ failed)
        last (a, e, inl (more, result, phase, count)) = absurd (omega arith)
        last (a, e, inr (over, result, phase)) = (
          e ∙ ap (λ r. ok r) result,
          failed_stays m (passes (suc (get_backoff_limit b - 1)) s) phase,
        )
