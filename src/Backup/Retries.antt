-- ===== src/Backup/Retries.antt =====
-- What becomes of a Backup whose execution fails.
use doltdb_operator.Prelude.{
  ℕ, Option, none, some, ap, sym, true, false, suc, ◌∷◌, ◌*◌, ◌≤◌, ◌<◌, ◌≡◌, ◌⊎◌, inl, inr, refl,
  arith, leb, Bool-cases, codes,
}
use mathlib.Core.Path.{subst}
use doltdb_operator.Effect.{Error, Requeue, nothing, after, Result, ok, err, ◌>>=◌, attempt}
use doltdb_operator.Backup.{
  Env, State, Backup, BackupStatus, Trace, failed, patched, get_backoff_limit, should_retry,
}
use doltdb_operator.Backup.Reconcile.{
  Patch, of_phase, of_retries, sent_start, merged, patch_backup_status, failed_status, count_retry,
  retry_or_give_up, handle_failure,
}

-- A start that the patcher leaves stays.
kept_start : (o : Option ℕ) → sent_start o o o ≡ o
kept_start none = refl
kept_start (some started) = refl

module _ (env : Env) (patch : Patch) (f : BackupStatus → BackupStatus) (s : State) where
  abbrev sent : BackupStatus
  unfolding merged
  sent = merged patch s.object (f s.object) s.stored

  -- The patch is accepted: memory and server have the new status.
  accepted :
      env.patch_backup (patched sent ∷ s.trace) ≡ ok tt
      → patch_backup_status env patch f s
        ≡ (ok tt, record { object = sent; stored = sent; trace = patched sent ∷ s.trace })
  unfolding patch_backup_status
  accepted e = rw e refl

  refused :
      {x : Error}
      → env.patch_backup (patched sent ∷ s.trace) ≡ err x
      → patch_backup_status env patch f s
        ≡ (err x, record s { object = f s.object; trace = patched sent ∷ s.trace })
  unfolding patch_backup_status
  refused e = rw e refl

module _ (env : Env) (b : Backup) (s : State) where
  abbrev pub retried : BackupStatus
  retried = record s.stored { retry_count = suc s.object.retry_count }

  -- The state after the retry is counted on the server.
  abbrev pub counted : State
  counted = record { object = retried; stored = retried; trace = patched retried ∷ s.trace }

  handled :
      env.patch_backup (patched retried ∷ s.trace) ≡ ok tt
      → handle_failure env b s
        ≡ retry_or_give_up env
            (should_retry (suc s.object.retry_count) (get_backoff_limit b))
            counted
  unfolding handle_failure ◌>>=◌ attempt merged
  handled e = rw (accepted env of_retries count_retry s e) refl

  abbrev failing : BackupStatus → BackupStatus
  failing =
      failed_status env (env.now counted.trace)
        (codes "backoff limit exceeded after %d retries: %v")

  abbrev pub Retried : (Result Requeue × State) → Type 0
  Retried r =
      (suc s.object.retry_count < get_backoff_limit b)
      × (r.0 ≡ ok (after (suc s.object.retry_count * 30)))
      × (r.1.stored.phase ≡ s.stored.phase)

  abbrev pub GivenUp : (Result Requeue × State) → Type 0
  GivenUp r =
      (get_backoff_limit b ≤ suc s.object.retry_count)
      × (r.0 ≡ ok nothing)
      × (r.1.stored.phase ≡ failed)

  -- Where the server accepts the patches, a failure is counted on the server; then, while the count
  -- with this failure is below the limit, the Backup is tried again in its phase after a delay of 30
  -- seconds for each failure so far, and where the count reaches the limit it is recorded as failed
  -- for good: a limit of n gives n attempts, and one retry fewer.
  pub handle_failure-Retried :
      ((t : Trace) → env.patch_backup t ≡ ok tt)
      → (Retried (handle_failure env b s) ⊎ GivenUp (handle_failure env b s))
        × ((handle_failure env b s).1.stored.retry_count ≡ suc s.object.retry_count)
  unfolding should_retry failed_status ◌>>=◌ attempt merged
  handle_failure-Retried accepts =
      rw (handled (accepts _))
        (decided (Bool-cases (leb (get_backoff_limit b) (suc s.object.retry_count))))
    where
      decided :
          (leb (get_backoff_limit b) (suc s.object.retry_count) ≡ true)
            ⊎ (leb (get_backoff_limit b) (suc s.object.retry_count) ≡ false)
          → let r =
              retry_or_give_up env
                (should_retry (suc s.object.retry_count) (get_backoff_limit b))
                counted in
            (Retried r ⊎ GivenUp r) × (r.1.stored.retry_count ≡ suc s.object.retry_count)
      decided (inl e) =
          rw (e, accepted env of_phase failing counted (accepts _))
            (inr (ground arith, refl, refl), refl)
      decided (inr e) = rw e (inl (ground arith, refl, refl), refl)

  -- Where the retry is counted but the server refuses the patch that records the failure, the
  -- reconciler returns without an error and without a requeue, and the Backup stays on the server in
  -- the phase that it was in.
  pub refused_failure_is_lost :
      (x : Error)
      → get_backoff_limit b ≤ suc s.object.retry_count
      → env.patch_backup (patched retried ∷ s.trace) ≡ ok tt
      → env.patch_backup (patched (failing retried) ∷ counted.trace) ≡ err x
      → ((handle_failure env b s).0 ≡ ok nothing) × ((handle_failure env b s).1.stored ≡ retried)
  unfolding should_retry failed_status ◌>>=◌ attempt merged
  refused_failure_is_lost x over counts refuses =
      let e : leb (get_backoff_limit b) (suc s.object.retry_count) ≡ true = ground arith in
      let same =
        ap (λ o. record (failing retried) { started_at = o }) (kept_start retried.started_at) in
      let sent_refused =
        subst (λ x'. env.patch_backup (patched x' ∷ counted.trace) ≡ err x) (sym same) refuses in
      rw (handled counts, e, refused env of_phase failing counted sent_refused) (refl, refl)
