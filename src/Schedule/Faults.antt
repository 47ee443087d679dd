-- ===== src/Schedule/Faults.antt =====
-- What goes wrong with a BackupSchedule.
use doltdb_operator.Prelude.{ℕ, true, ◌∷◌, ltb, ◌≡◌, refl, sym, ap, ◌∙◌, ◌≤◌, ◌<◌, ◌*◌, arith}
use mathlib.Core.Path.{subst}
use doltdb_operator.Effect.{Error, Requeue, after, Result, ok, err, message}
use doltdb_operator.Schedule.{
  BackupSchedule, patched, Trace, State, Env, second, last_schedule_time_of, backup_of,
  compute_requeue_after, reconcile_schedule, merged,
}
use doltdb_operator.Schedule.Due.{creations}
use doltdb_operator.Schedule.Asks.{
  sent_to, planned, recorded, asked_at, reconcile_schedule-creation, creations-creation,
  creation-recorded, creation-refused,
}

-- The state in which the next pass finds the schedule, which it reads anew.
abbrev pub read_again : State → State
read_again t = record t { object = t.stored }

module _ (env : Env) (b : BackupSchedule) (s : State) (next : ℕ → ℕ) where
  never_next :
      env.parse_standard b.schedule ≡ ok next
      → ((t : ℕ) → next t ≡ 0)
      → (now : ℕ) → 0 < now
      → compute_requeue_after env b.schedule now now ≡ 10 * second
  unfolding compute_requeue_after
  never_next parsed never now h =
      let e : ltb 0 now ≡ true = ground arith in rw (parsed, never now, e) refl

  -- A schedule that no time satisfies, whose parser then answers with the zero time, asks for a Backup
  -- in every pass, where the patches, the owner and the creation are accepted, and for the next pass in
  -- ten seconds.
  pub unsatisfiable_schedule_never_rests :
      env.parse_standard b.schedule ≡ ok next
      → ((t : ℕ) → next t ≡ 0)
      → 0 < env.now s.trace
      → ((t : Trace) → env.patch_schedule t ≡ ok tt)
      → ((t : Trace) → env.create_backup t ≡ ok tt)
      → env.set_controller_reference b ≡ ok tt
      → let y = reconcile_schedule env b s in
        (y.0 ≡ ok (after (10 * second)))
        × (creations y.1.trace ≡ backup_of b (env.now s.trace) ∷ creations s.trace)
  unsatisfiable_schedule_never_rests parsed never clock accepts makes owned =
      let e =
        reconcile_schedule-creation env b s next parsed (accepts _) owned
          (subst (λ n. n ≤ env.now s.trace) (sym (never _)) (omega arith)) in
      let t = sent_to (planned env b s next) s in
      (
        ap (λ (y : Result Requeue × State). y.0) e
            ∙ ap (λ (y : Result Requeue × State). y.0)
                (creation-recorded env b s next t (makes _) (accepts _))
            ∙ ap (λ n. ok (after n)) (never_next parsed never (env.now s.trace) clock),
        ap (λ (y : Result Requeue × State). creations y.1.trace) e
            ∙ creations-creation env b s next t,
      )

  created_at_first :
      env.parse_standard b.schedule ≡ ok next
      → env.patch_schedule (patched (planned env b s next) ∷ s.trace) ≡ ok tt
      → env.set_controller_reference b ≡ ok tt
      → next (last_schedule_time_of b s.object) ≤ env.now s.trace
      → creations (reconcile_schedule env b s).1.trace
        ≡ backup_of b (env.now s.trace) ∷ creations s.trace
  created_at_first parsed accepted owned due =
      ap (λ (y : Result Requeue × State). creations y.1.trace)
        (reconcile_schedule-creation env b s next parsed accepted owned due)
      ∙ creations-creation env b s next (sent_to (planned env b s next) s)

module _ (env : Env) (b : BackupSchedule) (s : State) (next : ℕ → ℕ) where
  -- Where a Backup is due and created but the server refuses the patch that records it, the pass
  -- fails, and the next pass, once its first patch is accepted, asks for a second Backup for the same
  -- time of the schedule.
  pub unrecorded_backup_is_repeated :
      (x : Error)
      → env.parse_standard b.schedule ≡ ok next
      → env.set_controller_reference b ≡ ok tt
      → s.object ≡ s.stored
      → next (last_schedule_time_of b s.object) ≤ env.now s.trace
      → env.patch_schedule (patched (planned env b s next) ∷ s.trace) ≡ ok tt
      → env.create_backup (asked_at env b s next (sent_to (planned env b s next) s)).trace ≡ ok tt
      → env.patch_schedule (
          patched (recorded env b s next (sent_to (planned env b s next) s))
          ∷ (asked_at env b s next (sent_to (planned env b s next) s)).trace)
        ≡ err x
      → let y = reconcile_schedule env b s in
        let u = read_again y.1 in
        env.patch_schedule (patched (planned env b u next) ∷ u.trace) ≡ ok tt
        → env.now s.trace ≤ env.now (reconcile_schedule env b s).1.trace
        → let y = reconcile_schedule env b s in
          (y.0 ≡ err (message "error patching schedule status: %w"))
          × (creations (reconcile_schedule env b (read_again y.1)).1.trace
              ≡ backup_of b (env.now y.1.trace) ∷ backup_of b (env.now s.trace) ∷ creations s.trace)
  unfolding merged
  unrecorded_backup_is_repeated x parsed owned fresh due accepted made refused accepted_again
        later =
      let t = sent_to (planned env b s next) s in
      let e = reconcile_schedule-creation env b s next parsed accepted owned due in
      let (failed, kept) = creation-refused env b s next t x made refused in
      let u = read_again (reconcile_schedule env b s).1 in
      let same : last_schedule_time_of b u.object ≡ last_schedule_time_of b s.object =
        ap (λ st. last_schedule_time_of b st)
          (ap (λ (y : Result Requeue × State). y.1.stored) e ∙ kept)
        ∙ ap (λ st. last_schedule_time_of b st) (sym fresh) in
      (
        ap (λ (y : Result Requeue × State). y.0) e ∙ failed,
        created_at_first env b u next parsed accepted_again owned
              (subst (λ n. next n ≤ env.now u.trace) (sym same) (omega arith))
            ∙ ap (λ l. backup_of b (env.now u.trace) ∷ l)
                (created_at_first env b s next parsed accepted owned due),
      )
