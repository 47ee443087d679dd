-- ===== src/Backup/Parts.antt =====
-- A pass of the reconciler of Backups from a phase, by its parts: each takes steps of the machine of
-- Backup/Lifecycle only.
use doltdb_operator.Prelude.{
  ℕ, List, [], ◌∷◌, Option, none, some, Bytes, codes, ◌≡◌, ◌⊎◌, inl, inr, refl, if◌then◌else◌,
}
use doltdb_operator.Effect.{nothing, after, is_zero, Result, ok, err, Op, pure, ◌>>=◌, wrap}
use doltdb_operator.Effect.Keeps.{
  Keeps, keeps_rules, Keeps-bind, Keeps-pure, Keeps-gets, Keeps-attempt,
}
use doltdb_operator.Effect.Runs.{
  After, Runs, Runs-Keeps, Runs-pure, Runs-if, Runs-wrap, Runs-weaken, Runs-attempt, Runs-bind,
}
use doltdb_operator.Backup.{
  Env, State, Backup, S3Storage, BackupStatus, Phase, pending, running, Event, Trace, patched,
  connected, call, backup_database, back_up_all, execute,
}
use doltdb_operator.Backup.Reconcile.{
  of_phase, of_retries, merged, patch_answer, patch_backup_status, running_status, completed_status,
  failed_status, count_retry, ensure_ready, has_running_backup, ensure_s3, execute_backup, give_up,
  retry_or_give_up, handle_failure, run, run_alone,
}
use doltdb_operator.Backup.Lifecycle.{Reach, next, start, retry, finish, abandon}

module _ (env : Env) (p : Phase) where
  abbrev pub Active : Phase → Type 0
  Active q = Reach p q × ((q ≡ pending) ⊎ (q ≡ running))

  abbrev Running : Phase → Type 0
  Running q = Reach p q × (q ≡ running)

  -- A call leaves the phase alone.
  module _ (P : Phase → Type 0) where
    abbrev pub OfPhase : State → Type 0
    OfPhase s = P s.stored.phase

    pub call_kept :
        {A : Type 0} (e : Event) (answer : Trace → Result A) → Keeps OfPhase (call e answer)
    unfolding call
    call_kept e answer = record { at = λ s h. h }

    database_kept : (d name url : Bytes) → Keeps OfPhase (backup_database env d name url)
    unfolding backup_database
    database_kept d name url = search (keeps_rules, call_kept) depth 12

    all_kept : (url : Bytes) (ds : List Bytes) → Keeps OfPhase (back_up_all env url ds)
    unfolding back_up_all
    all_kept url [] = Keeps-pure tt
    all_kept url (d ∷ ds) =
        Keeps-bind _ _ (search (keeps_rules, database_kept) depth 6) (λ _. all_kept url ds)

    execute_kept : (b : Backup) → Keeps OfPhase (execute env b)
    unfolding execute
    execute_kept b = search (keeps_rules, call_kept, all_kept) depth 16

    s3_kept : (s3 : Option S3Storage) → Keeps OfPhase (ensure_s3 env s3)
    s3_kept none = search keeps_rules
    s3_kept (some x) = search (keeps_rules, call_kept) depth 8

    ready_kept : Keeps OfPhase (ensure_ready env)
    unfolding ensure_ready
    ready_kept = search (keeps_rules, call_kept) depth 8

    others_kept : (b : Backup) → Keeps OfPhase (has_running_backup env b)
    unfolding has_running_backup
    others_kept b = search (keeps_rules, call_kept) depth 8

  -- A patch of the phase: what holds where it is accepted, and where it is refused.
  pub patched_phase :
      (f : BackupStatus → BackupStatus) (P Q : Phase → Type 0)
      → ((s : State) → P s.stored.phase → Q (f s.object).phase)
      → Runs (OfPhase P) (λ _. OfPhase Q) (OfPhase P) (patch_backup_status env of_phase f)
  unfolding patch_backup_status merged
  patched_phase f P Q h = record {
    at = λ s x.
        answered
          (env.patch_backup (patched (merged of_phase s.object (f s.object) s.stored) ∷ s.trace)) s
          x;
  }
    where
      answered :
          (r : Result (Unit {0})) (s : State)
          → P s.stored.phase
          → let y =
              patch_answer r (f s.object) (merged of_phase s.object (f s.object) s.stored) s in
            After (λ _. OfPhase Q) (OfPhase P) y.0 y.1
      answered (ok a) s x = h s x
      answered (err e) s x = x

  started : {q : Phase} → Active q → Running running
  started (r, inl e) = (next r (start e refl), refl)
  started (r, inr e) = (next r (retry e refl), refl)

  Running-Active : {q : Phase} → Running q → Active q
  Running-Active (r, e) = (r, inr e)

  begin-Runs :
      (now : ℕ)
      → Runs
          (OfPhase Active)
          (λ (_ : Unit {0}). OfPhase Running)
          (OfPhase Active)
          (wrap "error setting running status: %w"
            (patch_backup_status env of_phase (running_status env now)))
  unfolding running_status
  begin-Runs now =
      Runs-wrap _ (patched_phase (running_status env now) Active Running (λ s a. started a))

  finish-Runs :
      (now : ℕ)
      → Runs
          (OfPhase Running)
          (λ (_ : Unit {0}). OfPhase (Reach p))
          (OfPhase Running)
          (patch_backup_status env of_phase (completed_status env now))
  unfolding completed_status
  finish-Runs now =
      patched_phase (completed_status env now) Running (Reach p) (λ s h. next h.0 (finish h.1 refl))

  execute-Runs :
      (b : Backup)
      → Runs
          (OfPhase Active)
          (λ (_ : Unit {0}). OfPhase (Reach p))
          (OfPhase Active)
          (execute_backup env b)
  unfolding execute_backup
  execute-Runs b =
      Runs-bind (Runs-Keeps (Keeps-gets _))
        (λ now.
          Runs-bind (begin-Runs now)
            (λ _.
              Runs-bind (Runs-Keeps (s3_kept Running b.storage.s3))
                (λ _.
                  Runs-bind (Runs-wrap _ (Runs-Keeps (call_kept Running connected env.new_client)))
                    (λ _.
                      Runs-bind (Runs-Keeps (execute_kept Running b))
                        (λ _.
                          Runs-bind (Runs-Keeps (Keeps-gets _))
                            (λ ended. Runs-weaken (finish-Runs ended) (λ s h. Running-Active h))
                            (λ s h. Running-Active h))
                        (λ s h. Running-Active h))
                    (λ s h. Running-Active h))
                (λ s h. Running-Active h))
            (λ s h. h))
        (λ s h. h)

  -- To have failed or returned, at a phase that is reached.
  abbrev pub Goes : {A : Type 0} → (State → Type 0) → Op State A → Type 0
  Goes P m = Runs P (λ _. OfPhase (Reach p)) (OfPhase (Reach p)) m

  count_kept : Keeps (OfPhase Active) (patch_backup_status env of_retries count_retry)
  unfolding patch_backup_status merged
  count_kept = record {
    at = λ s h.
        answered
          (env.patch_backup
            (patched (merged of_retries s.object (count_retry s.object) s.stored) ∷ s.trace))
          s h;
  }
    where
      answered :
          (r : Result (Unit {0})) (s : State)
          → OfPhase Active s
          → OfPhase Active
              (patch_answer r
                (count_retry s.object)
                (merged of_retries s.object (count_retry s.object) s.stored)
                s).1
      answered (ok a) s h = h
      answered (err e) s h = h

  give_up-Goes : Goes (OfPhase Active) (give_up env)
  unfolding failed_status
  give_up-Goes =
      Runs-bind (Runs-Keeps (Keeps-gets _))
        (λ now.
          Runs-attempt
            (patched_phase
              (failed_status env now (codes "backoff limit exceeded after %d retries: %v")) Active
              (Reach p) (λ s h. next h.0 (abandon h.1 refl)))
            (λ _. Runs-pure nothing (λ s h. h)) (λ e. Runs-pure nothing (λ s h. h.0)))
        (λ s h. h.0)

  retry-Goes : (o : Option ℕ) → Goes (OfPhase Active) (retry_or_give_up env o)
  retry-Goes none = give_up-Goes
  retry-Goes (some seconds) = Runs-pure (after seconds) (λ s h. h.0)

  failure-Goes : (b : Backup) → Goes (OfPhase Active) (handle_failure env b)
  unfolding handle_failure
  failure-Goes b =
      Runs-bind
        (Runs-Keeps (Keeps-attempt _ _ _ count_kept (λ a. Keeps-pure a) (λ e. Keeps-pure tt)))
        (λ _. Runs-bind (Runs-Keeps (Keeps-gets _)) (λ count. retry-Goes _) (λ s h. h.0))
        (λ s h. h.0)

  run-Goes : (b : Backup) → Goes (OfPhase Active) (run env b)
  run-Goes b =
      Runs-attempt (execute-Runs b) (λ _. Runs-pure nothing (λ s h. h)) (λ e. failure-Goes b)

  alone-Goes : (b : Backup) → Goes (OfPhase Active) (run_alone env b)
  alone-Goes b =
      Runs-bind (Runs-Keeps (others_kept Active b))
        (λ blocked. Runs-if blocked (Runs-pure (after 30) (λ s h. h.0)) (run-Goes b)) (λ s h. h.0)

  pub ready-Goes :
      (b : Backup)
      → Goes
          (OfPhase Active)
          (ensure_ready env >>= λ r. if is_zero r then run_alone env b else pure r)
  ready-Goes b =
      Runs-bind (Runs-Keeps (ready_kept Active))
        (λ r. Runs-if (is_zero r) (alone-Goes b) (Runs-pure r (λ s h. h.0))) (λ s h. h.0)
