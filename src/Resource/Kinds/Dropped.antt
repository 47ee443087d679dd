-- ===== src/Resource/Kinds/Dropped.antt =====
-- A Database's finalizer and the statement that drops the database.
use doltdb_operator.Prelude.{
  ◌∷◌, List, Option, none, some, Bytes, String, ◌≡◌, refl, sym, ap, ◌∙◌, if◌then◌else◌, Bool, ◌⊎◌,
  inl, inr, true, false,
}
use mathlib.Core.Path.{subst}
use doltdb_operator.Effect.{Error, is_not_found, Result, ok, err, Op, pure, lift, wrap}
use doltdb_operator.Effect.Steps.{step-inv}
use doltdb_operator.Effect.Knows.{wrap_returned, wrap_state}
use doltdb_operator.Resource.{
  Resource, Object, skip, executed, patched_finalizers, Event, State, Env, Trace, call, exec,
  patch_answer, patch_finalizers,
}
use doltdb_operator.Resource.Statements.{sanitize_identifier, drop_database_statement}
use doltdb_operator.Resource.Client.{resolve_doltdb}
use doltdb_operator.Resource.Reconcile.{Options, finalize}
use doltdb_operator.Resource.Cleanup.{finalize_keeps_or_may}
use doltdb_operator.Resource.Kinds.{contains, remove_finalizer_of}
use doltdb_operator.Resource.Kinds.Database.{
  DatabaseSpec, name_of, drop_database, clean_up_database, database_kind, database_finalizer,
}
use doltdb_operator.Resource.Kinds.Leave.{database_kind-LeavesObject}

named : (o : Option Bytes) (name : Bytes) → name_of o ≡ ok name → o ≡ some name
named none name e = cc
named (some n) name e = cc

-- What may follow the statement on the trace: the patch of the finalizers, or nothing.
abbrev pub EndsWith : Trace → Trace → Type 0
EndsWith t end = (end ≡ t) ⊎ ((fs : List Bytes) × (end ≡ patched_finalizers fs ∷ t))

module _ (env : Env) where
  -- The pass has sent the statement that drops the database of the spec, the server has executed it
  -- without an error, and but for a patch of the finalizers it is the last call of the pass.
  abbrev pub IsDropped : DatabaseSpec → Trace → Type 0
  IsDropped spec end =
      (name : Bytes) × (safe : Bytes) × (t : Trace) × (spec.name ≡ some name)
      × (sanitize_identifier name ≡ ok safe)
      × (env.exec (executed (drop_database_statement safe) ∷ t) (drop_database_statement safe)
          ≡ ok tt)
      × EndsWith (executed (drop_database_statement safe) ∷ t) end

  patch-EndsWith :
      (f : List Bytes → List Bytes) (s : State)
      → EndsWith s.trace (patch_finalizers env f s).1.trace
  unfolding patch_finalizers
  patch-EndsWith f s = answered (env.patch_object (e ∷ s.trace))
    where
      changed : Object
      changed = record s.object { finalizers = f s.object.finalizers }

      e : Event
      e = patched_finalizers changed.finalizers

      answered :
          (r : Result (Unit {0}))
          → EndsWith s.trace
              (patch_answer r e changed
                (record s.stored { finalizers = changed.finalizers })
                s).1.trace
      answered (ok a) = inr (changed.finalizers, refl)
      answered (err x) = inr (changed.finalizers, refl)

  remove-EndsWith :
      (finalizer : Bytes) (text : String) (s : State)
      → EndsWith s.trace (remove_finalizer_of env finalizer text s).1.trace
  unfolding remove_finalizer_of pure
  remove-EndsWith finalizer text s = by_presence (contains env finalizer s)
    where
      removing : Op State (Unit {0})
      removing = patch_finalizers env (λ fs. env.util.remove_finalizer fs finalizer)

      by_presence :
          (b : Bool) → EndsWith s.trace ((if b then wrap text removing else pure tt) s).1.trace
      by_presence true =
          subst (λ (t : State). EndsWith s.trace t.trace) (sym (wrap_state text removing s))
            (patch-EndsWith (λ fs. env.util.remove_finalizer fs finalizer) s)
      by_presence false = inl refl

  cleaned-IsDropped :
      (spec : DatabaseSpec) (s end : State)
      → (clean_up_database env spec s).0 ≡ ok tt
      → EndsWith (clean_up_database env spec s).1.trace end.trace
      → IsDropped spec end.trace
  unfolding clean_up_database drop_database exec call lift
  cleaned-IsDropped spec s end h last =
      let (name, named_ok, h', e) = step-inv (lift (name_of spec.name)) _ s h in
      let dropped = wrap_returned _ (drop_database env name) _ _ h' in
      let (safe, valid, run, e') = step-inv (lift (sanitize_identifier name)) _ _ dropped in
      let ended =
        ap (λ (x : Result (Unit {0}) × State). x.1.trace) e
        ∙ (ap (λ (x : State). x.trace) (wrap_state _ (drop_database env name) _)
            ∙ ap (λ (x : Result (Unit {0}) × State). x.1.trace) e') in
      (
        name,
        safe,
        _,
        named spec.name name named_ok,
        valid,
        run,
        subst (λ t. EndsWith t end.trace) ended last,
      )

  -- A pass of a Database's finalizer takes the finalizer off the object on the server only where its
  -- first call has told that the DoltDB is not found, the policy of the Database is to skip the
  -- clean-up, or the pass has sent the statement that drops the database of that name and the server
  -- has executed it without an error; nothing but the patch of the finalizers was sent after it.
  pub release_needs_drop :
      (o : Options) (spec : DatabaseSpec) (r : Resource) (s : State)
      → let end = (finalize env o (database_kind env spec) r s).1 in
        (end.stored.finalizers ≡ s.stored.finalizers)
        ⊎ ((e : Error) × ((resolve_doltdb env r s).0 ≡ err e) × (is_not_found e ≡ true))
        ⊎ (r.cleanup_policy ≡ some skip)
        ⊎ IsDropped spec end.trace
  release_needs_drop o spec r s =
      let removed = remove-EndsWith database_finalizer "error patching Database finalizer: %v" in
      elim (finalize_keeps_or_may env o (database_kind env spec)
        (database_kind-LeavesObject env spec) r s) [
          | inl kept ↦ inl kept
          | inr (inl gone) ↦ inr (inl gone)
          | inr (inr (inl skipped)) ↦ inr (inr (inl skipped))
          | inr (inr (inr (t, run, end))) ↦
              let cleaned = (clean_up_database env spec t).1 in
              inr (
                inr (
                  inr (
                    cleaned-IsDropped spec t (finalize env o (database_kind env spec) r s).1 run (
                      subst (λ (x : State). EndsWith cleaned.trace x.trace)
                        (sym (end ∙ wrap_state _ (database_kind env spec).remove_finalizer cleaned))
                        (removed cleaned)))))
        ]
