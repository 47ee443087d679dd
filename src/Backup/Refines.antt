-- ===== src/Backup/Refines.antt =====
-- A pass of the reconciler of Backups takes steps of the machine of Backup/Lifecycle only.
use doltdb_operator.Prelude.{Bool, ◌≡◌, inl, inr, refl, sym, ap, if◌then◌else◌, ◌||◌}
use mathlib.Core.Path.{subst}
use doltdb_operator.Effect.{
  Error, is_not_found, Requeue, nothing, is_zero, Result, ok, err, Op, pure, fail, gets, modify,
  ◌>>=◌, ◌>>◌,
}
use doltdb_operator.Effect.Runs.{
  After, Runs, Runs-Keeps, Runs-pure, Runs-if, Runs-weaken, Runs-attempt, Runs-bind,
}
use doltdb_operator.Backup.{
  Env, State, Backup, Phase, unset, pending, running, completed, failed, got, is_completed,
  is_failed, is_unset,
}
use doltdb_operator.Backup.Reconcile.{
  of_phase, patch_backup_status, pending_status, ensure_pending, ensure_ready, run_alone,
  reconcile_found, reconcile_backup, fetch,
}
use doltdb_operator.Backup.Lifecycle.{Reach, here, next, create}
use doltdb_operator.Backup.Parts.{Active, OfPhase, Goes, patched_phase, call_kept, ready-Goes}

module _ (env : Env) (p : Phase) where
  -- The object that was read: its phase is that on the server.
  abbrev Fresh : State → Type 0
  Fresh s = (s.object.phase ≡ p) × (s.stored.phase ≡ p)

  Runs-phase :
      {A : Type 0} {Q : A → State → Type 0} {F : State → Type 0} (f : Phase → Bool)
      (k : Bool → Op State A)
      → Runs Fresh Q F (k (f p))
      → Runs Fresh Q F (gets (λ s. f s.object.phase) >>= k)
  unfolding ◌>>=◌
  Runs-phase {Q} {F} f k r = record {
    at = λ s h. subst (λ b. After Q F (k b s).0 (k b s).1) (ap f (sym h.0)) (r.at s h);
  }

  go_on :
      (b : Backup)
      → Runs Fresh
          (λ (_ : Unit {0}). OfPhase env p (Active env p))
          (OfPhase env p (Reach p))
          (ensure_pending env)
      → Goes env p Fresh (
          ensure_pending env
          >> (ensure_ready env >>= λ r. if is_zero r then run_alone env b else pure r))
  go_on b runs = Runs-bind runs (λ _. ready-Goes env p b) (λ s h. h)

  over-Goes : Goes env p Fresh (pure nothing)
  over-Goes = Runs-pure nothing (λ s h. subst (Reach p) (sym h.1) here)

module _ (env : Env) where
  abbrev Pending : Phase → Type 0
  Pending p =
      Runs (Fresh env p) (λ (_ : Unit {0}). OfPhase env p (Active env p)) (OfPhase env p (Reach p))
        (ensure_pending env)

  IsUnset : Phase → Type 0
  IsUnset q = q ≡ unset

  unset_to_pending :
      Runs
        (OfPhase env unset IsUnset)
        (λ (_ : Unit {0}). OfPhase env unset (Active env unset))
        (OfPhase env unset IsUnset)
        (patch_backup_status env of_phase (pending_status env))
  unfolding pending_status IsUnset
  unset_to_pending =
      patched_phase env unset (pending_status env) IsUnset (Active env unset)
        (λ s h. (next here (create refl refl), inl refl))

  created : Pending unset
  unfolding ensure_pending IsUnset
  created = Runs-phase env unset is_unset _ (
      Runs-weaken (record { at = λ s h. unset_to_pending.at s h.1 })
        (λ s h. subst (Reach unset) (sym h) here))

  waiting : Pending pending
  unfolding ensure_pending
  waiting =
      Runs-phase env pending is_unset _
        (Runs-pure tt (λ s h. (subst (Reach pending) (sym h.1) here, inl h.1)))

  going : Pending running
  unfolding ensure_pending
  going =
      Runs-phase env running is_unset _
        (Runs-pure tt (λ s h. (subst (Reach running) (sym h.1) here, inr h.1)))

  found-Goes : (p : Phase) (b : Backup) → Goes env p (Fresh env p) (reconcile_found env b)
  found-Goes unset b =
      Runs-phase env unset (λ q. is_completed q || is_failed q) _ (go_on env unset b created)
  found-Goes pending b =
      Runs-phase env pending (λ q. is_completed q || is_failed q) _ (go_on env pending b waiting)
  found-Goes running b =
      Runs-phase env running (λ q. is_completed q || is_failed q) _ (go_on env running b going)
  found-Goes completed b =
      Runs-phase env completed (λ q. is_completed q || is_failed q) _ (over-Goes env completed)
  found-Goes failed b =
      Runs-phase env failed (λ q. is_completed q || is_failed q) _ (over-Goes env failed)

  fetch-Runs :
      (p : Phase)
      → Runs
          (OfPhase env p (λ q. q ≡ p))
          (λ (_ : Unit {0}). Fresh env p)
          (OfPhase env p (λ q. q ≡ p))
          (fetch env)
  unfolding modify
  fetch-Runs p =
      Runs-bind (Runs-Keeps (call_kept env p (λ q. q ≡ p) got env.get_backup))
        (λ _. record { at = λ s h. (h, h) }) (λ s h. h)

  refused-Goes :
      (p : Phase) (e : Error)
      → Goes env p (OfPhase env p (λ q. q ≡ p)) (if is_not_found e then pure nothing else fail e)
  unfolding fail
  refused-Goes p e =
      Runs-if (is_not_found e) (Runs-pure nothing (λ s h. subst (Reach p) (sym h) here))
        (record { at = λ s h. subst (Reach p) (sym h) here })

  pass-Goes :
      (p : Phase) (b : Backup) → Goes env p (OfPhase env p (λ q. q ≡ p)) (reconcile_backup env b)
  unfolding reconcile_backup
  pass-Goes p b = Runs-attempt (fetch-Runs p) (λ _. found-Goes p b) (refused-Goes p)

  -- Whatever its calls answer, a pass of the reconciler takes the Backup on the server from its phase
  -- to one that the machine of the phases reaches from there: it is created, started, retried while it
  -- runs, and completed or failed, and a Backup that is completed or failed stays so.
  pub reconcile_follows_lifecycle :
      (b : Backup) (s : State) → Reach s.stored.phase (reconcile_backup env b s).1.stored.phase
  reconcile_follows_lifecycle b s =
      settled (reconcile_backup env b s).0 (reconcile_backup env b s).1
        ((pass-Goes s.stored.phase b).at s refl)
    where
      settled :
          (r : Result Requeue) (t : State)
          → After
              (λ _. OfPhase env s.stored.phase (Reach s.stored.phase))
              (OfPhase env s.stored.phase (Reach s.stored.phase))
              r
              t
          → Reach s.stored.phase t.stored.phase
      settled (ok a) t h = h
      settled (err e) t h = h
