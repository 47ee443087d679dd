-- ===== src/Schedule/Asks.antt =====
-- A pass over a BackupSchedule that is due, up to the call that creates the Backup and after it.
use doltdb_operator.Prelude.{ℕ, false, ◌∷◌, ltb, ◌≡◌, refl, ap, ◌∙◌, ◌≤◌, arith}
use doltdb_operator.Effect.{
  Error, Requeue, after, Result, ok, err, Op, pure, lift, gets, ◌>>=◌, attempt, message,
}
use doltdb_operator.Effect.Steps.{bind-ok, bind-err, wrap-ok, wrap-err, attempt-ok}
use doltdb_operator.Schedule.{
  BackupSchedule, ScheduleStatus, NewBackup, patched, created, State, Env, call,
  last_schedule_time_of, of_next, of_last, merged, patch_answer, backup_of, compute_requeue_after,
  patch_schedule_status, build_backup, with_next, with_last, record_creation, not_created,
  create_if_due, reconcile_schedule,
}
use doltdb_operator.Schedule.Due.{creations, asks, pass_from}

-- The state after an accepted patch.
abbrev pub sent_to : ScheduleStatus → State → State
sent_to st s = record { object = st; stored = st; trace = patched st ∷ s.trace }

module _ (env : Env) (b : BackupSchedule) (s : State) (next : ℕ → ℕ) where
  abbrev pub time : ℕ
  time = env.now s.trace

  abbrev pub last : ℕ
  last = last_schedule_time_of b s.object

  abbrev pub new : NewBackup
  new = backup_of b time

  -- The status that the first patch sends.
  abbrev pub planned : ScheduleStatus
  planned = merged of_next (with_next env (next last) s.object) s.stored

  abbrev pub creation : Op State Requeue
  creation =
      attempt (call (created new) env.create_backup) (λ _. record_creation env b time new)
        (not_created env b last time)

  sent_planned :
      env.patch_schedule (patched planned ∷ s.trace) ≡ ok tt
      → patch_schedule_status env of_next (with_next env (next last)) s ≡ (ok tt, sent_to planned s)
  unfolding patch_schedule_status
  sent_planned e = ap (λ r. patch_answer r (with_next env (next last) s.object) planned s) e

  built : env.set_controller_reference b ≡ ok tt → build_backup env b time ≡ ok new
  unfolding build_backup
  built e = rw e refl

  due_creates :
      (t : State)
      → env.set_controller_reference b ≡ ok tt
      → next last ≤ time
      → create_if_due env b last (next last) time t ≡ creation t
  unfolding lift
  due_creates t owned due =
      let e : ltb time (next last) ≡ false = ground arith in
      rw e (bind-ok _ _ (wrap-ok _ (lift _) (ap (λ r. (r, t)) (built owned))))

  from_parts : reconcile_schedule env b s ≡ pass_from env b time last s
  unfolding reconcile_schedule ◌>>=◌ gets
  from_parts = refl

  -- A pass that is due comes to the creation, if the first patch is accepted and the owner is set.
  pub reconcile_schedule-creation :
      env.parse_standard b.schedule ≡ ok next
      → env.patch_schedule (patched planned ∷ s.trace) ≡ ok tt
      → env.set_controller_reference b ≡ ok tt
      → next last ≤ time
      → reconcile_schedule env b s ≡ creation (sent_to planned s)
  unfolding lift
  reconcile_schedule-creation parsed accepted owned due =
      from_parts
      ∙ bind-ok _ _ (wrap-ok _ (lift _) (ap (λ r. (r, s)) parsed))
      ∙ bind-ok _ _ (wrap-ok _ _ (sent_planned accepted))
      ∙ due_creates (sent_to planned s) owned due

  -- After the creation has been answered, the trace holds one Backup more.
  pub creations-creation : (t : State) → creations (creation t).1.trace ≡ new ∷ creations t.trace
  creations-creation t = (asks env b (creations t.trace) last time new).at t refl

  abbrev pub asked_at : State → State
  asked_at t = record t { trace = created new ∷ t.trace }

  -- The status that the second patch sends.
  abbrev pub recorded : State → ScheduleStatus
  recorded t = merged of_last (with_last env time new.backup.name t.object) t.stored

  to_record :
      (t : State)
      → env.create_backup (created new ∷ t.trace) ≡ ok tt
      → creation t ≡ record_creation env b time new (asked_at t)
  unfolding call
  to_record t e =
      attempt-ok (call (created new) env.create_backup) (λ _. record_creation env b time new)
        (not_created env b last time) (ap (λ r. (r, asked_at t)) e)

  answered :
      (t : State) {r : Result (Unit {0})}
      → env.patch_schedule (patched (recorded t) ∷ created new ∷ t.trace) ≡ r
      → patch_schedule_status env of_last (with_last env time new.backup.name) (asked_at t)
        ≡ patch_answer r (with_last env time new.backup.name t.object) (recorded t) (asked_at t)
  unfolding patch_schedule_status
  answered t e =
      ap
        (λ r.
          patch_answer r (with_last env time new.backup.name t.object) (recorded t) (asked_at t))
        e

  -- Created and recorded.
  pub creation-recorded :
      (t : State)
      → env.create_backup (created new ∷ t.trace) ≡ ok tt
      → env.patch_schedule (patched (recorded t) ∷ created new ∷ t.trace) ≡ ok tt
      → creation t ≡ (
        ok (after (compute_requeue_after env b.schedule time time)),
        sent_to (recorded t) (asked_at t),
      )
  unfolding pure
  creation-recorded t made accepted =
      to_record t made ∙ bind-ok _ _ (wrap-ok _ _ (answered t accepted))

  -- Created, and not recorded.
  pub creation-refused :
      (t : State) (x : Error)
      → env.create_backup (created new ∷ t.trace) ≡ ok tt
      → env.patch_schedule (patched (recorded t) ∷ created new ∷ t.trace) ≡ err x
      → ((creation t).0 ≡ err (message "error patching schedule status: %w"))
        × ((creation t).1.stored ≡ t.stored)
  creation-refused t x made refused =
      let e = to_record t made ∙ bind-err _ _ (wrap-err _ _ (answered t refused)) in
      (
        ap (λ (y : Result Requeue × State). y.0) e,
        ap (λ (y : Result Requeue × State). y.1.stored) e,
      )
