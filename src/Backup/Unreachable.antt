-- ===== src/Backup/Unreachable.antt =====
-- One pass over a Backup whose server cannot be reached.
use doltdb_operator.Prelude.{
  ℕ, suc, false, [], ◌∷◌, Option, none, some, any, ◌≡◌, ◌⊎◌, inl, inr, refl, sym, ap, ◌∙◌, ◌*◌, ◌≤◌,
  ◌<◌, if◌then◌else◌, ◌||◌,
}
use mathlib.Core.Path.{subst}
use doltdb_operator.Effect.{
  Error, Requeue, nothing, after, is_zero, Result, ok, err, pure, modify, ◌>>=◌,
}
use doltdb_operator.Effect.Keeps.{Keeps, keeps_rules}
use doltdb_operator.Effect.Runs.{
  After, Runs, Runs-Keeps, Runs-pure, Runs-if, Runs-wrap, Runs-attempt, Runs-bind, Runs-gets,
  Runs-known, Runs-look, Runs-after,
}
use doltdb_operator.Backup.{
  Env, State, Backup, S3Storage, BackupStatus, Phase, pending, running, failed, Event, Trace, got,
  listed, resolved, waited, connected, call, is_completed, is_failed, get_backoff_limit,
}
use doltdb_operator.Backup.Reconcile.{
  of_phase, merged, patch_answer, patch_backup_status, pending_status, running_status,
  ensure_pending, ensure_ready, has_running_backup, ensure_s3, execute_backup, handle_failure,
  blocks, run, run_alone, reconcile_found, fetch, reconcile_backup,
}
use doltdb_operator.Backup.Retries.{Retried, GivenUp, handle_failure-Retried}

module _ (env : Env) (b : Backup) where
  -- The API answers, the DoltDB is ready, no other Backup is there, and the SQL server refuses the
  -- connection.
  pub record IsUnreachable : Type 0 where
    pub found : (t : Trace) → env.get_backup t ≡ ok tt
    pub accepted : (t : Trace) → env.patch_backup t ≡ ok tt
    pub alone : (t : Trace) → env.list_backups t ≡ ok []
    pub doltdb_found : (t : Trace) → env.resolve_doltdb t ≡ ok tt
    pub ready : (t : Trace) → env.wait_for_doltdb t ≡ ok nothing
    pub error : Trace → Error
    pub refused : (t : Trace) → env.new_client t ≡ err (error t)

  abbrev pub Never : State → Type 0
  Never s = ⊥

  -- Memory and server agree, with a number of retries; and a phase too.
  abbrev Counted : ℕ → State → Type 0
  Counted n s = (s.object ≡ s.stored) × (s.stored.retry_count ≡ n)

  abbrev InPhase : Phase → ℕ → State → Type 0
  InPhase q n s = Counted n s × (s.stored.phase ≡ q)

  -- What the pass comes to: one more retry to come, or the end.
  abbrev pub Failing : ℕ → Requeue → State → Type 0
  Failing n a s =
      ((suc n < get_backoff_limit b)
        × (a ≡ after (suc n * 30))
        × (s.stored.phase ≡ running)
        × (s.stored.retry_count ≡ suc n))
      ⊎ ((get_backoff_limit b ≤ suc n) × (a ≡ nothing) × (s.stored.phase ≡ failed))

  module _ (u : IsUnreachable) (n : ℕ) where
    patch-InPhase :
        (f : BackupStatus → BackupStatus) (q : Phase)
        → ((st : BackupStatus) → (f st).phase ≡ q)
        → Runs (Counted n) (λ _. InPhase q n) Never (patch_backup_status env of_phase f)
    unfolding patch_backup_status merged
    patch-InPhase f q phase = record {
      at = λ s h.
          subst
            (λ r.
              let y =
                patch_answer r (f s.object) (merged of_phase s.object (f s.object) s.stored) s in
              After (λ _. InPhase q n) Never y.0 y.1)
            (sym (u.accepted _)) ((refl, h.1), phase s.object);
    }

    -- A call that returns `v` keeps what holds of the two statuses.
    answers :
        {A : Type 0} (e : Event) (answer : Trace → Result A) (v : A)
        (P : BackupStatus → BackupStatus → Type 0)
        → ((t : Trace) → answer t ≡ ok v)
        → Runs
            (λ s. P s.object s.stored)
            (λ a s. P s.object s.stored × (a ≡ v))
            Never
            (call e answer)
    unfolding call
    answers e answer v P returned = record {
      at = λ s h.
          subst
            (λ r.
              After (λ a s. P s.object s.stored × (a ≡ v)) Never r
                (record s { trace = e ∷ s.trace }))
            (sym (returned _)) (h, refl);
    }

    abbrev Fresh : BackupStatus → BackupStatus → Type 0
    Fresh object stored = (object ≡ stored) × (stored.retry_count ≡ n)

    abbrev RunsHere : BackupStatus → BackupStatus → Type 0
    RunsHere object stored = Fresh object stored × (stored.phase ≡ running)

    stays :
        {A : Type 0} (e : Event) (answer : Trace → Result A)
        → Keeps (InPhase running n) (call e answer)
    unfolding call
    stays e answer = record { at = λ s h. h }

    s3-InPhase : (s3 : Option S3Storage) → Keeps (InPhase running n) (ensure_s3 env s3)
    s3-InPhase none = search keeps_rules
    s3-InPhase (some x) = search (keeps_rules, stays) depth 8

    connect :
        Runs
          (InPhase running n)
          (λ (_ : Unit {0}) _. ⊥)
          (InPhase running n)
          (call connected env.new_client)
    unfolding call
    connect = record {
      at = λ s h.
          subst
            (λ (r : Result (Unit {0})).
              After (λ _ _. ⊥) (InPhase running n) r (record s { trace = connected ∷ s.trace }))
            (sym (u.refused _)) h;
    }

    execute-Fails :
        Runs (Counted n) (λ (_ : Unit {0}) _. ⊥) (InPhase running n) (execute_backup env b)
    unfolding execute_backup running_status
    execute-Fails = Runs-look _ _ (λ now.
        Runs-bind (Runs-wrap _ (patch-InPhase (running_status env now) running (λ st. refl)))
          (λ _.
            Runs-bind (Runs-Keeps (s3-InPhase b.storage.s3))
              (λ _.
                Runs-bind (Runs-wrap _ connect) (λ _. record { at = λ s h. absurd h }) (λ s h. h))
              (λ s h. h))
          (λ s h. absurd h))

    failure-Failing : Runs (InPhase running n) (Failing n) Never (handle_failure env b)
    failure-Failing = record {
      at = λ s h.
          subst (λ k. After (Failing k) Never (handle_failure env b s).0 (handle_failure env b s).1)
            (ap (λ (st : BackupStatus). st.retry_count) h.0.0 ∙ h.0.1)
            (outcome s h.1 (handle_failure-Retried env b s u.accepted));
    }
      where
        outcome :
            (s : State)
            → s.stored.phase ≡ running
            → (Retried env b s (handle_failure env b s) ⊎ GivenUp env b s (handle_failure env b s))
              × ((handle_failure env b s).1.stored.retry_count ≡ suc s.object.retry_count)
            → After
                (Failing s.object.retry_count)
                Never
                (handle_failure env b s).0
                (handle_failure env b s).1
        outcome s h (inl (below, result, same), count) =
            subst (λ r. After (Failing s.object.retry_count) Never r (handle_failure env b s).1)
              (sym result) (inl (below, refl, same ∙ h, count))
        outcome s h (inr (over, result, phase), count) =
            subst (λ r. After (Failing s.object.retry_count) Never r (handle_failure env b s).1)
              (sym result) (inr (over, refl, phase))

    run-Failing : Runs (Counted n) (Failing n) Never (run env b)
    run-Failing =
        Runs-attempt execute-Fails (λ _. record { at = λ s h. absurd h }) (λ e. failure-Failing)

    alone-Failing : Runs (Counted n) (Failing n) Never (run_alone env b)
    unfolding has_running_backup
    alone-Failing =
        Runs-bind
          (Runs-bind (Runs-wrap _ (answers listed env.list_backups [] Fresh u.alone))
            (λ others.
              Runs-pure (any (blocks env b) others) (λ s h. (h.0, ap (any (blocks env b)) h.1)))
            (λ s h. h))
          (λ blocked.
            Runs-known (λ x. if x then pure (after 30) else run env b) {v = false} run-Failing)
          (λ s h. h)

    ready-Failing :
        Runs
          (Counted n)
          (Failing n)
          Never
          (ensure_ready env >>= λ r. if is_zero r then run_alone env b else pure r)
    unfolding ensure_ready
    ready-Failing =
        Runs-bind
          (Runs-bind (Runs-wrap _ (answers resolved env.resolve_doltdb tt Fresh u.doltdb_found))
            (λ a. record {
              at = λ s h. (answers waited env.wait_for_doltdb nothing Fresh u.ready).at s h.0;
            })
            (λ s h. h))
          (λ r.
            Runs-known (λ r. if is_zero r then run_alone env b else pure r) {v = nothing}
              alone-Failing)
          (λ s h. h)

    pending-Counted :
        (p : Phase) → Runs (InPhase p n) (λ (_ : Unit {0}). Counted n) Never (ensure_pending env)
    unfolding ensure_pending pending_status
    pending-Counted p = Runs-look _ _ (λ first.
        Runs-if first
          (record {
            at = λ s h.
                (Runs-after (patch-InPhase (pending_status env) pending (λ st. refl))
                    (λ a t k. k.0)).at
                  s h.0;
          })
          (Runs-pure tt (λ s h. h.0)))

    found-Failing :
        (p : Phase)
        → (is_completed p || is_failed p) ≡ false
        → Runs (InPhase p n) (Failing n) Never (reconcile_found env b)
    found-Failing p live =
        Runs-gets _ _ false
          (λ s h.
            ap (λ q. is_completed q || is_failed q)
              (ap (λ (st : BackupStatus). st.phase) h.0.0 ∙ h.1)
            ∙ live)
          (Runs-bind (pending-Counted p) (λ _. ready-Failing) (λ s h. h))

    fetch-InPhase :
        (p : Phase)
        → Runs
            (λ s. (s.stored.phase ≡ p) × (s.stored.retry_count ≡ n))
            (λ (_ : Unit {0}). InPhase p n)
            Never
            (fetch env)
    unfolding modify
    fetch-InPhase p =
        Runs-bind
          (answers got env.get_backup tt
            (λ object stored. (stored.phase ≡ p) × (stored.retry_count ≡ n)) u.found)
          (λ _. record { at = λ s h. ((refl, h.0.1), h.0.0) }) (λ s h. h)

    -- A pass that starts in a phase that is not over.
    pub pass-Failing :
        (p : Phase)
        → (is_completed p || is_failed p) ≡ false
        → Runs
            (λ s. (s.stored.phase ≡ p) × (s.stored.retry_count ≡ n))
            (Failing n)
            Never
            (reconcile_backup env b)
    unfolding reconcile_backup
    pass-Failing p live =
        Runs-attempt (fetch-InPhase p) (λ _. found-Failing p live)
          (λ e. record { at = λ s h. absurd h })
