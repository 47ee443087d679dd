-- ===== src/Replication/Outcome.antt =====
-- What a switchover that succeeds has recorded, and whom it has labelled.
use doltdb_operator.Prelude.{
  ℕ, ◌≤◌, false, List, ◌∷◌, Option, none, some, String, ◌≡◌, refl, ◌∙◌, ap, arith,
}
use mathlib.Core.Path.{subst, sym}
use doltdb_operator.Effect.{
  message, Result, ok, err, Op, pure, fail, modify, resume, ◌>>=◌, wrap, attempt,
}
use doltdb_operator.Effect.Steps.{bind-inv}
use doltdb_operator.Api.Condition.{Meta}
use doltdb_operator.Api.DoltDb.{DoltDb, DoltDbStatus, primary_pod_index}
use doltdb_operator.Api.Status.{
  raise_epoch, is_switching_primary, update_current_primary, update_replication_epoch,
}
use doltdb_operator.Conditions.{set_primary_switched}
use doltdb_operator.Dolt.{DbState}
use doltdb_operator.Cluster.{Env, State, Trace, set_doltdb, patch_status, call, Event}
use doltdb_operator.Replication.Switchover.{
  ClusterContext, switched_status, record_switch, switch_over, cluster_context,
}

-- The object records a switch to `index` at epoch `e` or a later one.
pub record Switched (m : Meta) (index e : ℕ) (d : DoltDb) : Type 0 where
  pub at_index : d.status.current_primary_pod_index ≡ some index
  pub is_done : is_switching_primary m d ≡ false
  pub at_epoch : (n : ℕ) × (d.status.replication_epoch ≡ some n) × (e ≤ n)

-- The recorded epoch never falls, and is at least the one given.
raised : (o : Option ℕ) (e : ℕ) → e ≤ raise_epoch o e
raised none e = ground arith
raised (some c) e = ground arith

recorded_switch :
    (m : Meta) (d : DoltDb) (index e : ℕ)
    → Switched m index e (record d { status = switched_status m d index e d.status })
unfolding update_replication_epoch update_current_primary is_switching_primary set_primary_switched
recorded_switch m d index e = record {
  at_index = refl;
  is_done = simp (m.true_found, m.false_found, m.find-set) refl;
  at_epoch = (raise_epoch d.status.replication_epoch e, refl, raised d.status.replication_epoch e);
}

wrap-inv :
    {A : Type 0} (text : String) (m : Op State A) (s : State) {a : A}
    → (wrap text m s).0 ≡ ok a
    → ((m s).0 ≡ ok a) × ((wrap text m s).1 ≡ (m s).1)
unfolding attempt pure fail
wrap-inv text m s e = inv (m s).0 (m s).1 e
  where
    inv :
        {A : Type 0} {a : A} (r : Result A) (t : State)
        → (resume r pure (λ _. fail (message text)) t).0 ≡ ok a
        → (r ≡ ok a) × ((resume r pure (λ _. fail (message text)) t).1 ≡ t)
    inv (ok b) t e = (e, refl)
    inv (err x) t e = cc

module _ (env : Env) where
  -- The last call is the patch of the status of `d`, and the server has accepted it.
  abbrev pub Accepted : DoltDb → Trace → Type 0
  Accepted d after =
      (t : Trace) × (after ≡ Event.patched_status d.status ∷ t) × (env.patch_status after d ≡ ok d)

  -- The object of the state records the switch, and the server has accepted its status at the last
  -- call.
  abbrev pub Recorded : ℕ → ℕ → State → Type 0
  Recorded index e s = Switched env.meta index e s.doltdb × Accepted s.doltdb s.trace

module _ (env : Env)
    (echoes : (t : Trace) (d d' : DoltDb) → env.patch_status t d ≡ ok d' → d' ≡ d) where
  patched :
      (f : DoltDbStatus → DoltDbStatus) (s : State)
      → (patch_status env f s).0 ≡ ok tt
      → let t = (patch_status env f s).1 in
        (t.doltdb ≡ record s.doltdb { status = f s.doltdb.status }) × Accepted env t.doltdb t.trace
  unfolding patch_status set_doltdb call ◌>>=◌ fail modify
  patched f s = answered _ refl
    where
      sent : DoltDb
      sent = record s.doltdb { status = f s.doltdb.status }

      after : State
      after = record s { doltdb = sent; trace = Event.patched_status (f s.doltdb.status) ∷ s.trace }

      accepted :
          (d' : DoltDb)
          → env.patch_status after.trace sent ≡ ok d'
          → d' ≡ sent
          → (d' ≡ sent) × Accepted env d' after.trace
      accepted d' h same =
          subst (λ d. (d ≡ sent) × Accepted env d after.trace) (sym same)
            (refl, (s.trace, refl, h ∙ ap ok same))

      answered :
          (r : Result DoltDb)
          → env.patch_status after.trace sent ≡ r
          → (resume r set_doltdb fail after).0 ≡ ok tt
          → let t = (resume r set_doltdb fail after).1 in
            (t.doltdb ≡ sent) × Accepted env t.doltdb t.trace
      answered (ok d') h e = accepted d' h (echoes _ _ d' h)
      answered (err x) h e = cc

  recorded :
      (index : ℕ) (ctx : ClusterContext) (s : State)
      → (record_switch env index ctx s).0 ≡ ok tt
      → Recorded env index ctx.next_epoch (record_switch env index ctx s).1
  unfolding record_switch ◌>>=◌
  recorded index ctx s e =
      let (done, same) =
        wrap-inv _ (patch_status env (switched_status env.meta s.doltdb index ctx.next_epoch)) s
          e in
      let (now, accepted) =
        patched (switched_status env.meta s.doltdb index ctx.next_epoch) s done in
      subst (Recorded env index ctx.next_epoch) (sym same) (
        subst (Switched env.meta index ctx.next_epoch) (sym now)
            (recorded_switch env.meta s.doltdb index ctx.next_epoch),
        accepted,
      )

  -- Where an accepted patch of the status answers with the object patched, a switchover that succeeds
  -- leaves the DoltDB at the index that its spec asked for, no longer switching, with an epoch that
  -- is at least the one it switched at; and its last call is the patch that sends that status, which
  -- the server has accepted.
  pub switch_over-Switched :
      (d : DoltDb) (states : List DbState) (s : State)
      → (switch_over env d states s).0 ≡ ok tt
      → Recorded env
          (primary_pod_index d)
          (cluster_context d states).next_epoch
          (switch_over env d states s).1
  unfolding switch_over
  switch_over-Switched d states s e =
      let (_, e1, same1) = bind-inv _ _ s e in
      let (_, e2, same2) = bind-inv _ _ _ e1 in
      subst (Recorded env (primary_pod_index d) (cluster_context d states).next_epoch)
        (sym (ap (λ (x : Result (Unit {0}) × State). x.1) (same1 ∙ same2)))
        (recorded (primary_pod_index d) (cluster_context d states) _ e2)
