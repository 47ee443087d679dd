-- ===== src/Resource/Outcome.antt =====
-- `SqlReconciler.Reconcile`: what a pass over an object that is not being deleted leaves behind.
use doltdb_operator.Prelude.{
  Bool, true, false, List, ◌∷◌, none, some, Bytes, String, ◌≡◌, refl, sym, ap, ◌∙◌, codes,
  if◌then◌else◌, Bool-cases, inl, inr,
}
use mathlib.Core.Path.{subst}
use doltdb_operator.Effect.{Error, Requeue, nothing, Result, ok, err, Op, pure, resume, attempt}
use doltdb_operator.Effect.Steps.{attempt-ok, attempt-err, wrap-ok}
use doltdb_operator.Api.Condition.{Condition, ready, found_true}
use doltdb_operator.Api.DoltDb.{DoltDb}
use doltdb_operator.Conditions.{
  patcher_with_error, set_ready_created, set_ready_created_with_message, set,
}
use doltdb_operator.Resource.{
  Resource, Object, patched_finalizers, patched_status, State, Env, Wrapped, Trace,
  patch_conditions, patch_finalizers,
}
use doltdb_operator.Resource.Client.{resolve_doltdb, new_client_with_doltdb}
use doltdb_operator.Resource.Reconcile.{
  Options, retry_after, retry_result, requeue_result, wait_for_doltdb, add_finalizer, finalize,
  reconcile_resolved, fail_resolving, reconcile_resource, joined_error, fail_and_retry, report,
  protect_and_report,
}
use doltdb_operator.Resource.Kinds.{
  patch_status_of, contains, add_finalizer_of, remove_finalizer_of,
}

-- A pass that reaches the SQL server: what happened before its reconciler ran.
module _ (env : Env) (o : Options) (w : Wrapped) (r : Resource) where
  pub record Reaches (s t : State) : Type 0 where
    pub alive : r.is_being_deleted ≡ false
    pub doltdb : DoltDb
    pub on_resolve : State
    pub on_wait : State
    pub resolved : resolve_doltdb env r s ≡ (ok doltdb, on_resolve)
    pub waited : wait_for_doltdb env doltdb on_resolve ≡ (ok nothing, on_wait)
    pub connected : new_client_with_doltdb env o.cluster_name doltdb on_wait ≡ (ok tt, t)

  reached :
      {s t : State}
      → Reaches s t
      → reconcile_resource env o w r s
        ≡ attempt w.reconcile
            (λ _. protect_and_report env o w r)
            (fail_and_retry env o w r (codes "Error creating %s: %v"))
            t
  unfolding reconcile_resource
  reached {s} h =
      ap
        (λ (b : Bool).
          (if b
              then finalize env o w r
              else attempt (resolve_doltdb env r) (reconcile_resolved env o w r)
                  (fail_resolving env o w))
            s)
        h.alive
      ∙ (attempt-ok _ _ _ h.resolved ∙ (attempt-ok _ _ _ h.waited ∙ attempt-ok _ _ _ h.connected))

  answered :
      (p : Result (Unit {0})) (e : Error) (t : State)
      → resume {S = State} p
          (λ a. pure (retry_result r (joined_error (some e) (ok a))))
          (λ x. pure (retry_result r (joined_error (some e) (err x))))
          t
        ≡ (ok (retry_after r.retry_interval (some e)), t)
  unfolding pure retry_result
  answered (ok a) e t = refl
  answered (err x) e t = refl

  -- A pass that reaches the SQL server and fails there returns no error, whatever becomes of the
  -- patch of the condition: it asks to be run again, after the retry interval if there is one.
  failures_are_retried :
      (s t u : State) (e : Error)
      → Reaches s t
      → w.reconcile t ≡ (err e, u)
      → (reconcile_resource env o w r s).0 ≡ ok (retry_after r.retry_interval (some e))
  unfolding attempt
  failures_are_retried s t u e h failed =
      ap (λ (x : Result Requeue × State). x.0)
        (reached h
          ∙ (attempt-err w.reconcile (λ _. protect_and_report env o w r)
                (fail_and_retry env o w r (codes "Error creating %s: %v")) failed
              ∙ answered _ e _))

-- The part of a kind that its finalizer and the texts of its errors determine.
module _ (env : Env) (finalizer : Bytes) (status_text finalizer_text : String) where
  abbrev pub shared_kind : Op State (Unit {0}) → Op State (Unit {0}) → Wrapped
  shared_kind reconcile clean_up = record {
    reconcile = reconcile;
    patch_status = patch_status_of env status_text;
    contains_finalizer = contains env finalizer;
    add_finalizer = add_finalizer_of env finalizer finalizer_text;
    remove_finalizer = remove_finalizer_of env finalizer finalizer_text;
    clean_up = clean_up;
  }

  status_patched :
      (f : List Condition → List Condition) (s : State)
      → ((t : Trace) → env.patch_status t ≡ ok tt)
      → let changed = record s.stored { conditions = f s.object.conditions } in
        patch_status_of env status_text f s ≡ (
          ok tt,
          record s {
            object = changed;
            stored = changed;
            trace = patched_status changed.conditions ∷ s.trace;
          },
        )
  unfolding patch_status_of patch_conditions pure
  status_patched f s accepts = wrap-ok status_text (patch_conditions env f) (rw (accepts _) refl)

  abbrev pub IsProtected : State → Type 0
  IsProtected s = env.util.contains_finalizer s.stored.finalizers finalizer ≡ true

  module _ (o : Options) (reconcile clean_up : Op State (Unit {0})) where
    -- The finalizer is on the server after it is added, if memory and server agreed before.
    added :
        (s : State)
        → s.object ≡ s.stored
        → ((t : Trace) → env.patch_object t ≡ ok tt)
        → let m = add_finalizer env o (shared_kind reconcile clean_up) in
          ((m s).0 ≡ ok tt) × IsProtected (m s).1
    unfolding add_finalizer add_finalizer_of contains patch_finalizers pure attempt
    added s same accepts =
        elim (Bool-cases (env.util.contains_finalizer s.object.finalizers finalizer)) [
          | inl there ↦ rw there (
            refl,
            ap (λ (x : Object). env.util.contains_finalizer x.finalizers finalizer) (sym same)
                ∙ there,
          )
          | inr missing ↦
              let fs = env.util.add_finalizer s.object.finalizers finalizer in
              rw missing (
                rw (missing, accepts (patched_finalizers fs ∷ s.trace))
                  (refl, env.util.contains-add s.object.finalizers finalizer))
        ]

    reported :
        (r : Resource) (s : State)
        → ((t : Trace) → env.patch_status t ≡ ok tt)
        → let changed = record s.stored {
          conditions = set_ready_created env.meta s.object.conditions;
        } in
          report env o (shared_kind reconcile clean_up) r none s ≡ (
            ok (requeue_result o r none),
            record s {
              object = changed;
              stored = changed;
              trace = patched_status changed.conditions ∷ s.trace;
            },
          )
    unfolding patcher_with_error pure
    reported r s accepts =
        attempt-ok _ _ _ (status_patched (patcher_with_error env.meta none) s accepts)

    -- The answer is the requeue of a success; on the server are the finalizer and a true Ready.
    abbrev pub IsDone : Resource → Result Requeue × State → Type 0
    IsDone r x =
        (x.0 ≡ ok (requeue_result o r none))
        × IsProtected x.1
        × (found_true (env.meta.find_status_condition x.1.stored.conditions ready) ≡ true)

    done :
        (r : Resource) (s : State)
        → s.object ≡ s.stored
        → ((t : Trace) → env.patch_object t ≡ ok tt)
        → ((t : Trace) → env.patch_status t ≡ ok tt)
        → IsDone r (protect_and_report env o (shared_kind reconcile clean_up) r s)
    unfolding set_ready_created set_ready_created_with_message set
    done r s same accepts_object accepts_status =
        let m = add_finalizer env o (shared_kind reconcile clean_up) in
        let (returned, protected) = added s same accepts_object in
        let run =
          attempt-ok m _ _ (ap (λ (x : Result (Unit {0})). (x, (m s).1)) returned)
          ∙ reported r (m s).1 accepts_status in
        subst (IsDone r) (sym run) (refl, protected, ap found_true (env.meta.find-set _ _ _))

    module _ (r : Resource) (s t u : State)
        (reaches : Reaches env o (shared_kind reconcile clean_up) r s t)
        (succeeded : reconcile t ≡ (ok tt, u)) where
      pub then_protects :
          reconcile_resource env o (shared_kind reconcile clean_up) r s
          ≡ protect_and_report env o (shared_kind reconcile clean_up) r u
      then_protects =
          reached env o (shared_kind reconcile clean_up) r reaches
          ∙ attempt-ok reconcile (λ _. protect_and_report env o (shared_kind reconcile clean_up) r)
              (fail_and_retry env o (shared_kind reconcile clean_up) r
                (codes "Error creating %s: %v"))
              succeeded

      -- Where the reconciler of a kind succeeds on the SQL server and the patches are accepted, the
      -- pass returns the requeue of a success, and the server has the finalizer of the kind and a
      -- Ready condition that is true; memory and server agreed before.
      pub success_is_protected :
          u.object ≡ u.stored
          → ((t : Trace) → env.patch_object t ≡ ok tt)
          → ((t : Trace) → env.patch_status t ≡ ok tt)
          → IsDone r (reconcile_resource env o (shared_kind reconcile clean_up) r s)
      success_is_protected same accepts_object accepts_status =
          subst (IsDone r) (sym then_protects) (done r u same accepts_object accepts_status)
