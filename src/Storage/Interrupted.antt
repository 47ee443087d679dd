-- ===== src/Storage/Interrupted.antt =====
-- A resize that is interrupted after the StatefulSet was made anew.
use doltdb_operator.Prelude.{
  ℕ, Bool, true, false, some, ◌≡◌, refl, ◌∙◌, ap, if◌then◌else◌, not, arith, ◌==◌,
}
use doltdb_operator.Effect.{Requeue, nothing, Result, ok, err, Op, pure, fail, resume, ◌>>=◌}
use doltdb_operator.Api.Status.{is_resizing_storage, is_waiting_for_storage_resize}
use doltdb_operator.Cluster.{Env, State, StatefulSet, Trace, call}
use doltdb_operator.Storage.{
  SizeChange, no_change, grow_to, compare_sizes, change_size, reconcile_sizes, reconcile_storage,
  should_reconcile_storage,
}
use doltdb_operator.Update.{should_reconcile_updates}

same_size : (size : ℕ) → compare_sizes (some size) (some size) ≡ ok no_change
unfolding compare_sizes
same_size size = rw (equal size) refl
  where
    equal : (n : ℕ) → (n == n) ≡ true
    equal n = ground arith

module _ (env : Env) (reconcile_stateful_set : Op State Requeue) where
  -- The object is left as it is, and no other pass is asked for.
  abbrev Idle : State → Op State Requeue → Type 0
  Idle s m = ((m s).0 ≡ ok nothing) × ((m s).1.doltdb ≡ s.doltdb)

  sizes-Idle :
      (size : ℕ) (sts : StatefulSet) (s : State)
      → ((t : Trace) → env.get_stateful_set t ≡ ok sts)
      → sts.data_volume_size ≡ some size
      → s.doltdb.spec.storage.size ≡ some size
      → Idle s (reconcile_sizes env reconcile_stateful_set)
  unfolding ◌>>=◌ call pure
  sizes-Idle size sts s got existing desired = rw got (
      unchanged _ _ (
        ap (λ x. compare_sizes x s.doltdb.spec.storage.size) existing
        ∙ ap (compare_sizes (some size)) desired
        ∙ same_size size))
    where
      unchanged :
          (r : Result SizeChange) (t : State)
          → r ≡ ok no_change
          → ((resume r (change_size env reconcile_stateful_set) fail t).0 ≡ ok nothing)
            × ((resume r (change_size env reconcile_stateful_set) fail t).1.doltdb ≡ t.doltdb)
      unchanged (ok no_change) t h = (refl, refl)
      unchanged (ok (grow_to n)) t h = cc
      unchanged (err e) t h = cc

  -- A DoltDB that is marked as resizing, but not as waiting for the resize, whose StatefulSet has the
  -- desired size already: a pass of the storage reconciler leaves the object as it is and asks for
  -- no other pass, and the update reconciler does nothing in that state either.
  pub interrupted_resize_stays :
      (size : ℕ) (sts : StatefulSet) (s : State)
      → ((t : Trace) → env.get_stateful_set t ≡ ok sts)
      → sts.data_volume_size ≡ some size
      → s.doltdb.spec.storage.size ≡ some size
      → is_resizing_storage env.meta s.doltdb ≡ true
      → is_waiting_for_storage_resize env.meta s.doltdb ≡ false
      → ((reconcile_storage env reconcile_stateful_set s).0 ≡ ok nothing)
        × ((reconcile_storage env reconcile_stateful_set s).1.doltdb ≡ s.doltdb)
        × (should_reconcile_updates env.meta s.doltdb ≡ false)
  unfolding should_reconcile_updates reconcile_storage ◌>>=◌ pure
  interrupted_resize_stays size sts s got existing desired resizing not_waiting =
      let (r, q) =
        passed (should_reconcile_storage env.meta s.doltdb) _ _ not_waiting
          (sizes-Idle size sts s got existing desired) in
      (r, q, rw resizing refl)
    where
      passed :
          (b w : Bool) (m : Op State Requeue)
          → w ≡ false
          → Idle s (reconcile_sizes env reconcile_stateful_set)
          → Idle s (
              if not b
              then pure nothing
              else (if w then m else reconcile_sizes env reconcile_stateful_set))
      passed false w m h k = (refl, refl)
      passed true true m h k = cc
      passed true false m h k = k
