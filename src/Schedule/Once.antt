-- ===== src/Schedule/Once.antt =====
-- A Backup that is created and recorded is the only one until the next time of its schedule.
use doltdb_operator.Prelude.{ℕ, ◌∷◌, some, ◌≡◌, sym, ap, ◌∙◌, ◌⊎◌, inl, inr, ◌≤◌, ◌<◌, arith}
use mathlib.Core.Path.{subst}
use doltdb_operator.Effect.{Requeue, Result, ok, err}
use doltdb_operator.Schedule.{
  BackupSchedule, Trace, State, Env, to_seconds, last_schedule_time_of, backup_of, last_or,
  reconcile_schedule, merged, with_last,
}
use doltdb_operator.Schedule.Due.{creations, IsDue, asks_for_at_most_one}
use doltdb_operator.Schedule.Asks.{
  sent_to, planned, reconcile_schedule-creation, creations-creation, creation-recorded,
}

module _ (env : Env) (b : BackupSchedule) (s : State) (next : ℕ → ℕ) where
  -- Where a Backup is due, the calls of the API are accepted and the schedule parses, a pass asks for
  -- the Backup of its time and records that time in whole seconds; and no later pass that reads it
  -- asks for another before the next time of the schedule after it.
  pub created_once_until_next :
      env.parse_standard b.schedule ≡ ok next
      → env.set_controller_reference b ≡ ok tt
      → ((t : Trace) → env.patch_schedule t ≡ ok tt)
      → ((t : Trace) → env.create_backup t ≡ ok tt)
      → next (last_schedule_time_of b s.object) ≤ env.now s.trace
      → (u : State)
      → u.object.last_schedule_time ≡ (reconcile_schedule env b s).1.stored.last_schedule_time
      → env.now u.trace < next (to_seconds (env.now s.trace))
      → (creations (reconcile_schedule env b s).1.trace
          ≡ backup_of b (env.now s.trace) ∷ creations s.trace)
        × ((reconcile_schedule env b s).1.stored.last_schedule_time
            ≡ some (to_seconds (env.now s.trace)))
        × (creations (reconcile_schedule env b u).1.trace ≡ creations u.trace)
  unfolding merged with_last
  created_once_until_next parsed owned accepts makes due u read early =
      let t = sent_to (planned env b s next) s in
      let e = reconcile_schedule-creation env b s next parsed (accepts _) owned due in
      let recorded_at : (reconcile_schedule env b s).1.stored.last_schedule_time
          ≡ some (to_seconds (env.now s.trace)) =
        ap (λ (y : Result Requeue × State). y.1.stored.last_schedule_time)
          (e ∙ creation-recorded env b s next t (makes _) (accepts _)) in
      (
        ap (λ (y : Result Requeue × State). creations y.1.trace) e
            ∙ creations-creation env b s next t,
        recorded_at,
        rests (ap (λ o. last_or o b.created_at) (read ∙ recorded_at))
            (asks_for_at_most_one env b u),
      )
    where
      known : Result (ℕ → ℕ) → ℕ → ℕ
      known (ok f) = f
      known (err e) = next

      rests :
          last_schedule_time_of b u.object ≡ to_seconds (env.now s.trace)
          → let asked = creations (reconcile_schedule env b u).1.trace in
            (asked ≡ creations u.trace)
              ⊎ (IsDue env b (last_schedule_time_of b u.object) (env.now u.trace)
                  × (asked ≡ backup_of b (env.now u.trace) ∷ creations u.trace))
            → creations (reconcile_schedule env b u).1.trace ≡ creations u.trace
      rests same (inl h) = h
      rests same (inr ((other, parses, past), h)) =
          let equal : other ≡ next = ap known (sym parses ∙ parsed) in
          let late : next (to_seconds (env.now s.trace)) ≤ env.now u.trace =
            subst (λ (f : ℕ → ℕ). f (to_seconds (env.now s.trace)) ≤ env.now u.trace) equal
              (subst (λ n. other n ≤ env.now u.trace) same past) in
          absurd (omega arith)
