-- ===== src/Controller/ScaleDown.antt =====
-- A scale-down below the primary's index.
use doltdb_operator.Prelude.{
  ℕ, ◌≤◌, ◌<◌, Bool, true, false, List, ◌∷◌, some, ◌≡◌, refl, ◌∙◌, ap, if◌then◌else◌, not, arith,
  ltb, deref,
}
use mathlib.Core.Path.{subst, sym}
use doltdb_operator.Effect.{Requeue, again, Result, ok, Op, pure, ◌>>=◌, wrap}
use doltdb_operator.Effect.Steps.{attempt-ok, bind-ok, wrap-ok}
use doltdb_operator.Api.DoltDb.{DoltDb, replication_enabled, set_primary_pod_index}
use doltdb_operator.Cluster.{
  Env, State, Event, StatefulSet, Trace, call, set_doltdb, patch_doltdb, get_stateful_set,
}
use doltdb_operator.Cluster.Traces.{assumed_roles}
use doltdb_operator.Controller.{
  run_phases, scale_down_from, move_primary_first, reconcile_pre_scale_down,
}

module _ (env : Env) (sts : StatefulSet) (got : (t : Trace) → env.get_stateful_set t ≡ ok sts)
    (echoes : (t : Trace) (d : DoltDb) → env.patch_doltdb t d ≡ ok d) where
  -- The primary's Pod would go: the StatefulSet has more replicas than the spec asks for, and the
  -- primary's index is not below those.
  abbrev pub Doomed : ℕ → DoltDb → Type 0
  Doomed i d =
      (replication_enabled d ≡ true)
      × (d.status.current_primary_pod_index ≡ some i)
      × (d.spec.replicas < deref sts.spec_replicas 0)
      × (d.spec.replicas ≤ i)

  moved :
      (s : State)
      → patch_doltdb env (set_primary_pod_index 0) s ≡ (
        ok tt,
        record s {
          doltdb = set_primary_pod_index 0 s.doltdb;
          trace = Event.patched_spec (set_primary_pod_index 0 s.doltdb).spec ∷ s.trace;
        },
      )
  unfolding patch_doltdb ◌>>=◌ set_doltdb call
  moved s = rw echoes refl

  moved_first :
      (s : State)
      → move_primary_first env s ≡ (
        ok again,
        record s {
          doltdb = set_primary_pod_index 0 s.doltdb;
          trace = Event.patched_spec (set_primary_pod_index 0 s.doltdb).spec ∷ s.trace;
        },
      )
  unfolding pure
  moved_first s =
      bind-ok
        (wrap "error patching DoltDB to transition primary before scale-down: %v"
          (patch_doltdb env (set_primary_pod_index 0)))
        (λ _. pure again) (wrap-ok _ (patch_doltdb env (set_primary_pod_index 0)) (moved s))

  found :
      (s : State)
      → get_stateful_set env s ≡ (ok sts, record s { trace = Event.got_stateful_set ∷ s.trace })
  unfolding call
  found s = rw got refl

  abbrev after_move : State → State
  after_move s = record s {
    doltdb = set_primary_pod_index 0 s.doltdb;
    trace =
        Event.patched_spec (set_primary_pod_index 0 s.doltdb).spec
        ∷ Event.got_stateful_set
        ∷ s.trace;
  }

  pre_scale_down_moves :
      (i : ℕ) (s : State)
      → Doomed i s.doltdb
      → reconcile_pre_scale_down env s ≡ (ok again, after_move s)
  unfolding reconcile_pre_scale_down ◌>>=◌
  pre_scale_down_moves i s (enabled, set, less, out) =
      decided _ _ _ enabled
      ∙ ap (λ o. scale_down_from env s.doltdb o s) set
      ∙ attempt-ok _ _ _ (found s)
      ∙ scaled (ltb s.doltdb.spec.replicas (deref sts.spec_replicas 0))
          (ltb i s.doltdb.spec.replicas) _ _ _ (ground arith) (ground arith)
      ∙ moved_first (record s { trace = Event.got_stateful_set ∷ s.trace })
    where
      decided : (b : Bool) (m n : Op State Requeue) → b ≡ true → (if not b then m else n) s ≡ n s
      decided true m n h = refl
      decided false m n h = cc

      scaled :
          (b b' : Bool) (m n : Op State Requeue) (t : State)
          → b ≡ true
          → b' ≡ false
          → (if not b then m else (if b' then m else n)) t ≡ n t
      scaled true false m n t h h' = refl
      scaled true true m n t h h' = cc
      scaled false b' m n t h h' = cc

  -- Whatever phases come after it, the switch of the primary among them, a pass that reaches
  -- `reconcilePreScaleDown` while the primary's Pod would go ends there and asks to be run again; no
  -- server is asked to assume a role, and the object is in the same situation for that next pass,
  -- with the primary where it was.
  pub scale_down_blocks_phases :
      (i : ℕ) (rest : List (Op State Requeue)) (s : State)
      → Doomed i s.doltdb
      → let t = (run_phases env (reconcile_pre_scale_down env ∷ rest) s).1 in
        ((run_phases env (reconcile_pre_scale_down env ∷ rest) s).0 ≡ ok again)
        × Doomed i t.doltdb
        × (assumed_roles t.trace ≡ assumed_roles s.trace)
  unfolding run_phases pure
  scale_down_blocks_phases i rest s doomed =
      subst
        (λ (x : Result Requeue × State).
          (x.0 ≡ ok again)
          × Doomed i x.1.doltdb
          × (assumed_roles x.1.trace ≡ assumed_roles s.trace))
        (sym (attempt-ok _ _ _ (pre_scale_down_moves i s doomed)))
        (refl, (doomed.0, doomed.1, doomed.2, doomed.3), refl)
