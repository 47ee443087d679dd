-- ===== src/Resource/Unprotected.antt =====
-- `SqlReconciler.Reconcile` creates in SQL first and adds the finalizer afterwards: what a refused
-- finalizer leaves behind.
use doltdb_operator.Prelude.{false, List, ◌∷◌, some, Bytes, String, ◌≡◌, refl, sym, ◌∙◌}
use mathlib.Core.Path.{subst}
use doltdb_operator.Effect.{
  Error, message, Requeue, again, Result, ok, err, Op, pure, fail, resume, attempt,
}
use doltdb_operator.Effect.Steps.{attempt-err}
use doltdb_operator.Api.Condition.{Condition}
use doltdb_operator.Conditions.{patcher_with_error}
use doltdb_operator.Resource.{
  Resource, Event, patched_finalizers, patched_status, State, Env, Trace, patch_answer,
  patch_conditions, patch_finalizers,
}
use doltdb_operator.Resource.Reconcile.{
  Options, requeue_result, add_finalizer, reconcile_resource, joined_error, report,
}
use doltdb_operator.Resource.Kinds.{patch_status_of, contains, add_finalizer_of}
use doltdb_operator.Resource.Outcome.{Reaches, shared_kind, then_protects}

module _ (env : Env) (finalizer : Bytes) (status_text finalizer_text : String) (o : Options)
    (reconcile clean_up : Op State (Unit {0})) where
  -- Another pass is asked for, and the finalizers on the server are those given.
  abbrev pub IsLeft : List Bytes → Result Requeue × State → Type 0
  IsLeft fs y = (y.0 ≡ ok again) × (y.1.stored.finalizers ≡ fs)

  patch-IsLeft :
      (r : Resource) (e : Error) (p : Result (Unit {0})) (event : Event) (cs : List Condition)
      (s : State)
      → let changed = record s.object { conditions = cs } in
        let x =
          attempt
            (patch_answer p event changed (record s.stored { conditions = cs }))
            pure
            (λ _. fail (message status_text))
            s in
        IsLeft s.stored.finalizers (
          resume x.0
            (λ a. pure (requeue_result o r (joined_error (some e) (ok a))))
            (λ x. pure (requeue_result o r (joined_error (some e) (err x))))
            x.1)
  unfolding pure attempt requeue_result fail
  patch-IsLeft r e (ok a) event cs s = (refl, refl)
  patch-IsLeft r e (err x) event cs s = (refl, refl)

  report-IsLeft :
      (r : Resource) (e : Error) (s : State)
      → IsLeft s.stored.finalizers (
          report env o
            (shared_kind env finalizer status_text finalizer_text reconcile clean_up)
            r
            (some e)
            s)
  unfolding patch_status_of patch_conditions attempt
  report-IsLeft r e s =
      let cs = patcher_with_error env.meta (some e) s.object.conditions in
      patch-IsLeft r e (env.patch_status (patched_status cs ∷ s.trace)) (patched_status cs) cs s

  refused :
      (s : State) (x : Error)
      → env.util.contains_finalizer s.object.finalizers finalizer ≡ false
      → ((t : Trace) → env.patch_object t ≡ err x)
      → (e : Error) × (t : State) × (add_finalizer env o
            (shared_kind env finalizer status_text finalizer_text reconcile clean_up)
            s
          ≡ (err e, t))
        × (t.stored.finalizers ≡ s.stored.finalizers)
  unfolding add_finalizer add_finalizer_of contains patch_finalizers pure attempt fail
  refused s x missing refuses =
      let fs = env.util.add_finalizer s.object.finalizers finalizer in
      (
        message "error adding finalizer in TemplateFinalizer: %v",
        record s {
          object = record s.object { finalizers = fs };
          trace = patched_finalizers fs ∷ s.trace;
        },
        rw missing (rw (missing, refuses (patched_finalizers fs ∷ s.trace)) refl),
        refl,
      )

  -- Where the reconciler of a kind has succeeded on the SQL server and the server of the API refuses
  -- the patch of the finalizer, the pass asks to be run again, and the object on the server has the
  -- finalizers that it had: what was created in SQL is not protected.
  pub refused_finalizer_leaves_unprotected :
      (r : Resource) (s t u : State) (x : Error)
      → Reaches env o
          (shared_kind env finalizer status_text finalizer_text reconcile clean_up)
          r
          s
          t
      → reconcile t ≡ (ok tt, u)
      → env.util.contains_finalizer u.object.finalizers finalizer ≡ false
      → ((t : Trace) → env.patch_object t ≡ err x)
      → let y =
          reconcile_resource env o
            (shared_kind env finalizer status_text finalizer_text reconcile clean_up)
            r
            s in
        (y.0 ≡ ok again) × (y.1.stored.finalizers ≡ u.stored.finalizers)
  refused_finalizer_leaves_unprotected r s t u x reaches succeeded missing refuses =
      let (e, v, failed, same) = refused u x missing refuses in
      let run =
        then_protects env finalizer status_text finalizer_text o reconcile clean_up r s t u reaches
          succeeded
        ∙ attempt-err _ _ _ failed in
      let left = report-IsLeft r (message "error adding finalizer to %s: %v") v in
      subst (IsLeft u.stored.finalizers) (sym run) (left.0, left.1 ∙ same)
