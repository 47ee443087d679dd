-- ===== src/Schedule/Due.antt =====
-- When a pass over a BackupSchedule asks for a Backup.
use doltdb_operator.Prelude.{
  ℕ, true, false, List, [], ◌∷◌, ltb, Bool-cases, ◌≡◌, refl, sym, ap, ◌⊎◌, inl, inr, ◌≤◌, arith,
}
use mathlib.Core.Path.{subst}
use doltdb_operator.Effect.{
  Error, Requeue, Result, ok, err, Op, pure, lift, gets, ◌>>=◌, ◌>>◌, attempt, wrap,
}
use doltdb_operator.Effect.Keeps.{Keeps, keeps_rules}
use doltdb_operator.Effect.Ends.{Ends, Ends-bind, Ends-attempt_first}
use doltdb_operator.Effect.Steps.{bind-ok, bind-err, wrap-ok, wrap-err}
use doltdb_operator.Schedule.{
  BackupSchedule, ScheduleStatus, NewBackup, got, resolved, waited, patched, created, Trace, State,
  Env, call, last_schedule_time_of, Patch, of_next, merged, patch_answer, backup_of,
  patch_schedule_status, build_backup, with_next, record_creation, not_created, create_due,
  create_if_due, reconcile_schedule,
}

-- The Backups that were asked for, the latest first.
abbrev pub creations : Trace → List NewBackup
creations [] = []
creations (created new ∷ t) = new ∷ creations t
creations (got ∷ t) = creations t
creations (resolved ∷ t) = creations t
creations (waited ∷ t) = creations t
creations (patched st ∷ t) = creations t

module _ (env : Env) (b : BackupSchedule) where
  module _ (cs : List NewBackup) where
    abbrev pub Asked : State → Type 0
    Asked s = creations s.trace ≡ cs

    patch-Asked :
        (patch : Patch) (f : ScheduleStatus → ScheduleStatus)
        → Keeps Asked (patch_schedule_status env patch f)
    unfolding patch_schedule_status
    patch-Asked patch f = record {
      at = λ s h.
          answered (env.patch_schedule (patched (merged patch (f s.object) s.stored) ∷ s.trace)) _ _
            s h;
    }
      where
        answered :
            (r : Result (Unit {0})) (changed sent : ScheduleStatus) (s : State)
            → Asked s
            → Asked (patch_answer r changed sent s).1
        answered (ok a) changed sent s h = h
        answered (err e) changed sent s h = h

    record-Asked : (now : ℕ) (new : NewBackup) → Keeps Asked (record_creation env b now new)
    record-Asked now new = search (keeps_rules, patch-Asked) depth 10

    not_created-Asked : (last now : ℕ) (e : Error) → Keeps Asked (not_created env b last now e)
    not_created-Asked last now e = search keeps_rules depth 6

  abbrev pub pass_from : ℕ → ℕ → Op State Requeue
  pass_from now last =
      wrap "error parsing cron schedule '%s': %w" (lift (env.parse_standard b.schedule)) >>= λ next.
      wrap "error patching schedule status: %w"
        (patch_schedule_status env of_next (with_next env (next last)))
      >> create_if_due env b last (next last) now

  -- The schedule parses, and its next time after the last is not in the future.
  abbrev pub IsDue : ℕ → ℕ → Type 0
  IsDue last now = (next : ℕ → ℕ) × (env.parse_standard b.schedule ≡ ok next) × (next last ≤ now)

  module _ (cs : List NewBackup) where
    pub asks :
        (last now : ℕ) (new : NewBackup)
        → Ends (Asked cs) (Asked (new ∷ cs)) (
            attempt
              (call (created new) env.create_backup)
              (λ _. record_creation env b now new)
              (not_created env b last now))
    unfolding call
    asks last now new =
        Ends-attempt_first _ _ _ (record { at = λ s h. ap (λ l. new ∷ l) h })
          (λ _. record-Asked (new ∷ cs) now new) (λ e. not_created-Asked (new ∷ cs) last now e)

    -- Nothing was asked for, or the Backup of the time `now`.
    abbrev Due : ℕ → State → Type 0
    Due now s = Asked cs s ⊎ Asked (backup_of b now ∷ cs) s

    create_due-Due : (last now : ℕ) → Ends (Asked cs) (Due now) (create_due env b last now)
    unfolding build_backup ◌>>=◌ attempt
    create_due-Due last now = record {
      at = λ s h. by_owner (env.set_controller_reference b) refl s h;
    }
      where
        by_owner :
            (r : Result (Unit {0}))
            → env.set_controller_reference b ≡ r
            → (s : State) → Asked cs s
            → Due now (create_due env b last now s).1
        by_owner (ok a) e s h = rw e (inr ((asks last now (backup_of b now)).at s h))
        by_owner (err x) e s h = rw e (inl h)

    abbrev AskedIfDue : ℕ → ℕ → State → Type 0
    AskedIfDue last now s = Asked cs s ⊎ (IsDue last now × Asked (backup_of b now ∷ cs) s)

    create_if_due-Due :
        (last now : ℕ) (next : ℕ → ℕ)
        → env.parse_standard b.schedule ≡ ok next
        → Ends (Asked cs) (AskedIfDue last now) (create_if_due env b last (next last) now)
    unfolding pure
    create_if_due-Due last now next parsed = by_time (Bool-cases (ltb now (next last)))
      where
        weaken : (s : State) → Due now s → next last ≤ now → AskedIfDue last now s
        weaken s (inl h) due = inl h
        weaken s (inr h) due = inr ((next, parsed, due), h)

        by_time :
            (ltb now (next last) ≡ true) ⊎ (ltb now (next last) ≡ false)
            → Ends (Asked cs) (AskedIfDue last now) (create_if_due env b last (next last) now)
        by_time (inl e) = rw e (record { at = λ s h. inl h })
        by_time (inr e) = rw e (record {
          at = λ s h.
              weaken (create_due env b last now s).1 ((create_due-Due last now).at s h)
                (ground arith);
        })

    sent-Due :
        (now last : ℕ) (next : ℕ → ℕ)
        → env.parse_standard b.schedule ≡ ok next
        → Ends (Asked cs) (AskedIfDue last now) (
            wrap "error patching schedule status: %w"
              (patch_schedule_status env of_next (with_next env (next last)))
            >> create_if_due env b last (next last) now)
    sent-Due now last next e =
        Ends-bind _ _ (search (keeps_rules, patch-Asked) depth 6)
          (λ _. create_if_due-Due last now next e) (λ t k. inl k)

    pass_from-Due :
        (now last : ℕ) (s : State) → Asked cs s → AskedIfDue last now (pass_from now last s).1
    unfolding lift
    pass_from-Due now last s h = by_parse (env.parse_standard b.schedule) refl
      where
        by_parse :
            (r : Result (ℕ → ℕ))
            → env.parse_standard b.schedule ≡ r
            → AskedIfDue last now (pass_from now last s).1
        by_parse (err x) e =
            subst (λ (y : Result Requeue × State). AskedIfDue last now y.1)
              (sym (bind-err _ _ (wrap-err _ (lift _) (ap (λ r. (r, s)) e)))) (inl h)
        by_parse (ok next) e =
            subst (λ (y : Result Requeue × State). AskedIfDue last now y.1)
              (sym (bind-ok _ _ (wrap-ok _ (lift _) (ap (λ r. (r, s)) e))))
              ((sent-Due now last next e).at s h)

  -- Whatever its calls answer, a pass over a BackupSchedule asks for no Backup, or for one: that of the
  -- time of the pass, and only where the schedule parses and its next time after the last is past.
  pub asks_for_at_most_one :
      (s : State)
      → let last = last_schedule_time_of b s.object in
        let now = env.now s.trace in
        let asked = creations (reconcile_schedule env b s).1.trace in
        (asked ≡ creations s.trace)
        ⊎ (IsDue last now × (asked ≡ backup_of b now ∷ creations s.trace))
  unfolding reconcile_schedule ◌>>=◌ gets
  asks_for_at_most_one s =
      pass_from-Due (creations s.trace) (env.now s.trace) (last_schedule_time_of b s.object) s refl
