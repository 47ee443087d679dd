-- ===== src/Snapshot/Reported.antt =====
-- What the status of a Snapshot says of a pass that fails.
use doltdb_operator.Prelude.{
  true, List, [], ◌∷◌, Bytes, codes, some, ◌≡◌, refl, sym, ap, ◌∙◌, if◌then◌else◌,
}
use mathlib.Core.Path.{subst}
use doltdb_operator.Effect.{
  Error, is_not_found, Requeue, nothing, is_zero, Result, ok, err, pure, fail, modify, ◌>>=◌, ◌>>◌,
  wrap,
}
use doltdb_operator.Effect.Keeps.{
  Keeps, keeps_rules, Keeps-bind, Keeps-pure, Keeps-fail, Keeps-attempt, Keeps-if,
}
use doltdb_operator.Effect.Steps.{bind-ok, wrap-ok, attempt-ok}
use doltdb_operator.Api.Condition.{Condition, snapshot_created}
use doltdb_operator.Conditions.{
  set, set_ready_with_snapshot_job_created, set_ready_failed_with_message, set_ready_failed,
  patcher_with_error,
}
use doltdb_operator.Snapshot.{
  Snapshot, ConfigMap, CronJob, Event, got, patched_status, resolved, Trace, State, Env, call,
  patch_answer, is_panic, patch_conditions, build_or_patch_config_map, build_or_patch_cron_job,
  reconcile_pvc, reconcile_pvcs, reconcile_volumes, mark_created, fail_with, reconcile_ready,
  wait_and_reconcile, reconcile_found, reconcile_snapshot,
}

module _ (env : Env) where
  abbrev SaysCreated : List Condition → Type 0
  SaysCreated cs = env.meta.is_status_condition_true cs snapshot_created ≡ true

  created_set :
      (cs : List Condition) → SaysCreated (set_ready_with_snapshot_job_created env.meta cs)
  unfolding set_ready_with_snapshot_job_created set
  created_set cs = simp (env.meta.true_found, env.meta.find-set) refl

  failed_kept :
      (text : Bytes) (cs : List Condition)
      → SaysCreated cs
      → SaysCreated (set_ready_failed_with_message env.meta text cs)
  unfolding set_ready_failed_with_message set
  failed_kept text cs h =
      env.meta.true_found _ _
      ∙ (simp env.meta.find-set (sym (env.meta.true_found cs snapshot_created) ∙ h))

  error_kept :
      (e : Error) (cs : List Condition)
      → SaysCreated cs
      → SaysCreated (patcher_with_error env.meta (some e) cs)
  unfolding patcher_with_error set_ready_failed
  error_kept e cs h = failed_kept (codes "Failed") cs h

  abbrev Reported : State → Type 0
  Reported s = SaysCreated s.object × SaysCreated s.stored

  call-Reported :
      {A : Type 0} (e : Event) (answer : Trace → Result A) → Keeps Reported (call e answer)
  unfolding call
  call-Reported e answer = record { at = λ s h. h }

  patch-Reported :
      (f : List Condition → List Condition)
      → ((cs : List Condition) → SaysCreated cs → SaysCreated (f cs))
      → Keeps Reported (patch_conditions env f)
  unfolding patch_conditions
  patch-Reported f kept = record {
    at = λ s h. answered (env.patch_status (patched_status (f s.object) ∷ s.trace)) s h;
  }
    where
      answered :
          (r : Result (Unit {0})) (s : State)
          → Reported s
          → Reported (patch_answer r (f s.object) s).1
      answered (ok a) s h = (kept s.object h.0, kept s.object h.0)
      answered (err e) s h = (kept s.object h.0, h.1)

  mark-Reported : Keeps Reported (mark_created env)
  mark-Reported =
      search
        (
          keeps_rules,
          patch-Reported (set_ready_with_snapshot_job_created env.meta) (λ cs h. created_set cs),
        )
        depth 6

  config_map-Reported : (m : ConfigMap) → Keeps Reported (build_or_patch_config_map env m)
  unfolding build_or_patch_config_map
  config_map-Reported m = search (keeps_rules, call-Reported) depth 16

  cron_job-Reported : (j : CronJob) → Keeps Reported (build_or_patch_cron_job env j)
  unfolding build_or_patch_cron_job
  cron_job-Reported j = search (keeps_rules, call-Reported) depth 16

  pvc-Reported :
      (snapshot : Snapshot) (pvc : Bytes) → Keeps Reported (reconcile_pvc env snapshot pvc)
  unfolding reconcile_pvc
  pvc-Reported snapshot pvc = search (keeps_rules, config_map-Reported, cron_job-Reported) depth 16

  pvcs-Reported :
      (snapshot : Snapshot) (pvcs : List Bytes) → Keeps Reported (reconcile_pvcs env snapshot pvcs)
  unfolding reconcile_pvcs
  pvcs-Reported snapshot [] = Keeps-pure tt
  pvcs-Reported snapshot (pvc ∷ pvcs) =
      Keeps-bind _ _ (pvc-Reported snapshot pvc) (λ _. pvcs-Reported snapshot pvcs)

  volumes-Reported : (snapshot : Snapshot) → Keeps Reported (reconcile_volumes env snapshot)
  unfolding reconcile_volumes
  volumes-Reported snapshot = search (keeps_rules, call-Reported, pvcs-Reported) depth 8

  fail_with-Reported :
      (f : List Condition → List Condition) (e : Error)
      → ((cs : List Condition) → SaysCreated cs → SaysCreated (f cs))
      → Keeps Reported (fail_with env f e)
  fail_with-Reported f e kept =
      Keeps-attempt _ _ _ (search (keeps_rules, patch-Reported f kept) depth 6) (λ _. Keeps-fail e)
        (λ _. Keeps-fail e)

  ready-Reported : (snapshot : Snapshot) → Keeps Reported (reconcile_ready env snapshot)
  ready-Reported snapshot =
      Keeps-attempt _ _ _ (volumes-Reported snapshot)
        (λ _. Keeps-bind _ _ mark-Reported (λ _. Keeps-pure nothing))
        (λ e. Keeps-if (is_panic e) _ _ (Keeps-fail e) (fail_with-Reported _ e (failed_kept _)))

  wait-Reported : (snapshot : Snapshot) → Keeps Reported (wait_and_reconcile env snapshot)
  wait-Reported snapshot =
      Keeps-attempt _ _ _ (call-Reported _ env.wait_for_doltdb)
        (λ r. Keeps-if (is_zero r) _ _ (ready-Reported snapshot) (Keeps-pure r))
        (λ e. fail_with-Reported _ _ (error_kept e))

  after_mark :
      (snapshot : Snapshot)
      → Keeps Reported (
          wrap "error getting DoltDB: %v" (call resolved env.resolve_doltdb)
          >> wait_and_reconcile env snapshot)
  after_mark snapshot =
      Keeps-bind _ _ (search (keeps_rules, call-Reported) depth 6) (λ _. wait-Reported snapshot)

  module _ (snapshot : Snapshot) (s : State) where
    abbrev marked : List Condition
    marked = set_ready_with_snapshot_job_created env.meta s.stored

    abbrev fetched : State
    fetched = record s { object = s.stored; trace = got ∷ s.trace }

    fetch_known :
        env.get_snapshot (got ∷ s.trace) ≡ ok tt
        → (call got env.get_snapshot >> modify (λ (t : State). record t { object = t.stored })) s
          ≡ (ok tt, fetched)
    unfolding call modify ◌>>=◌
    fetch_known e = rw e refl

    mark_known :
        env.patch_status (patched_status marked ∷ got ∷ s.trace) ≡ ok tt
        → patch_conditions env (set_ready_with_snapshot_job_created env.meta) fetched ≡ (
          ok tt,
          record {
            object = marked;
            stored = marked;
            trace = patched_status marked ∷ got ∷ s.trace;
          },
        )
    unfolding patch_conditions
    mark_known e = ap (λ r. patch_answer r marked fetched) e

    -- Once a pass over a Snapshot has read it and its first patch is accepted, the server has the
    -- condition that the snapshot was created, whatever becomes of the pass: also where the DoltDB is
    -- not found, the schedule does not parse or no object could be created.
    pub early_mark_stays :
        env.get_snapshot (got ∷ s.trace) ≡ ok tt
        → env.patch_status (patched_status marked ∷ got ∷ s.trace) ≡ ok tt
        → env.meta.is_status_condition_true
            (reconcile_snapshot env snapshot s).1.stored
            snapshot_created
          ≡ true
    unfolding reconcile_snapshot
    early_mark_stays found accepted =
        let e =
          attempt-ok _ (λ _. reconcile_found env snapshot)
            (λ x. if is_not_found x then pure nothing else fail x) (fetch_known found)
          ∙ bind-ok (mark_created env) _ (wrap-ok _ _ (mark_known accepted)) in
        subst (λ (y : Result Requeue × State). SaysCreated y.1.stored) (sym e)
          ((after_mark snapshot).at _ (created_set s.stored, created_set s.stored)).1
