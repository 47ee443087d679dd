-- ===== src/Storage.antt =====
-- pkg/controller/storage, pkg/pvc and `GetStorageSize`: the resize of the data volumes. The
-- reconciler of the StatefulSet, which `NewReconciler` is given, is an argument.
pub mod Interrupted
pub mod Growth
use doltdb_operator.Prelude.{
  ℕ, Bool, true, false, List, [], ◌∷◌, Option, none, some, ltb, ◌==◌, ◌&&◌, ◌||◌, not,
  if◌then◌else◌, deref,
}
use doltdb_operator.Effect.{
  Requeue, nothing, after, message, Result, ok, err, Op, pure, fail, gets, modify, lift, ◌>>=◌,
  ◌>>◌, attempt, wrap, stop_or, is_zero,
}
use doltdb_operator.Api.Condition.{Meta, Condition}
use doltdb_operator.Api.DoltDb.{DoltDb, DoltDbStatus, Storage}
use doltdb_operator.Api.Status.{is_updating, is_switching_primary, is_waiting_for_storage_resize}
use doltdb_operator.Conditions.{
  set_ready_storage_resizing, set_ready_waiting_storage_resize, set_ready_storage_resized,
  StsStatus,
}
use doltdb_operator.Cluster.{
  Env, State, Event, Pvc, PvcCondition, PvcConditionType, resizing, file_system_resize_pending,
  other_condition, StatefulSet, call, doltdb_now, get_stateful_set, patch_status, listed_pvcs,
  patched_pvc, deleted_stateful_set,
}

-- `shouldReconcileStorage`.
unfoldable pub should_reconcile_storage : Meta → DoltDb → Bool
should_reconcile_storage m d = not (is_updating m d || is_switching_primary m d)

abbrev is_pending : PvcConditionType → Bool
is_pending file_system_resize_pending = true
is_pending _ = false

abbrev is_resize : PvcConditionType → Bool
is_resize other_condition = false
is_resize _ = true

-- `IsPersistentVolumeClaimFileSystemResizePending`.
unfoldable pub is_file_system_resize_pending : List PvcCondition → Bool
is_file_system_resize_pending [] = false
is_file_system_resize_pending (c ∷ rest) =
    let later = is_file_system_resize_pending rest in
    if c.is_true && is_pending c.kind then true else later

-- `IsPersistentVolumeClaimResizing`.
unfoldable pub is_claim_resizing : List PvcCondition → Bool
is_claim_resizing [] = false
is_claim_resizing (c ∷ rest) =
    let later = is_claim_resizing rest in if c.is_true && is_resize c.kind then true else later

-- `IsResizing`.
unfoldable pub is_resizing : Pvc → Bool
unfolding is_file_system_resize_pending is_claim_resizing
is_resizing pvc = is_file_system_resize_pending pvc.conditions || is_claim_resizing pvc.conditions

unfoldable pub any_resizing : List Pvc → Bool
unfolding is_resizing
any_resizing [] = false
any_resizing (p ∷ ps) = let later = any_resizing ps in if is_resizing p then true else later

abbrev pub with_conditions_of : (List Condition → List Condition) → DoltDbStatus → DoltDbStatus
with_conditions_of f status = record status { conditions = f status.conditions }

-- What `Reconcile` decides of the existing size and the desired one.
pub data SizeChange : Type 0 where
  no_change : SizeChange
  grow_to : ℕ → SizeChange

unfoldable pub compare_sizes : Option ℕ → Option ℕ → Result SizeChange
compare_sizes none desired = err (message "invalid existing storage size")
compare_sizes (some existing) none = err (message "invalid desired storage size")
compare_sizes (some existing) (some desired) =
    if desired == existing
    then ok no_change
    else if ltb desired existing
    then err (message "cannot decrease storage size from '%s' to '%s'")
    else ok (grow_to desired)

abbrev pub resizes_in_use : Storage → Bool
resizes_in_use storage = deref storage.resize_in_use_volumes true

module _ (env : Env) where
  -- `getStoragePVCs`.
  abbrev pub get_storage_pvcs : Op State (List Pvc)
  get_storage_pvcs = wrap "error listing PVCs: %v" (call listed_pvcs env.list_pvcs)

  unfoldable pub patch_pvcs : ℕ → List Pvc → Op State (Unit {0})
  unfolding call
  patch_pvcs size [] = pure tt
  patch_pvcs size (p ∷ ps) = do
    let sent = record p { request = size }
    wrap "error patching PVC '%s': %v" (call (patched_pvc sent) (λ t. env.patch_pvc t sent))
    patch_pvcs size ps

  -- `resizeInUsePVCs`.
  unfoldable pub resize_in_use_pvcs : ℕ → Op State Requeue
  unfolding patch_pvcs
  resize_in_use_pvcs size = do
    d ← doltdb_now
    if not (resizes_in_use d.spec.storage)
        then pure nothing
        else (get_storage_pvcs >>= λ pvcs. (patch_pvcs size pvcs >> pure nothing))

  abbrev pub await_stateful_set : Op State Requeue
  await_stateful_set = do
    d ← doltdb_now
    sts ← get_stateful_set env
    if not (sts.counts.ready_replicas == d.spec.replicas)
        then pure (after 1)
        else (wrap "error patching status: %v"
              (patch_status env (with_conditions_of (set_ready_storage_resized env.meta)))
            >> pure nothing)

  -- `waitForStorageResize`.
  unfoldable pub wait_for_storage_resize : Op State Requeue
  unfolding any_resizing call patch_status
  wait_for_storage_resize = do
    d ← doltdb_now
    if resizes_in_use d.spec.storage && deref d.spec.storage.wait_for_volume_resize true
        then (get_storage_pvcs >>= λ pvcs.
            if any_resizing pvcs then pure (after 1) else await_stateful_set)
        else await_stateful_set

  module _ (reconcile_stateful_set : Op State Requeue) where
    -- `resizeStatefulSet`: its Pods are left as orphans.
    unfoldable pub resize_stateful_set : Op State Requeue
    unfolding call
    resize_stateful_set = do
      wrap "error deleting StatefulSet: %v" (call deleted_stateful_set env.delete_stateful_set)
      reconcile_stateful_set

    -- The steps of a resize, after the sizes are compared.
    unfoldable pub grow : ℕ → Op State Requeue
    unfolding patch_status resize_in_use_pvcs resize_stateful_set wait_for_storage_resize
    grow size = do
      wrap "error patching status: %v"
          (patch_status env (with_conditions_of (set_ready_storage_resizing env.meta)))
      stop_or (resize_in_use_pvcs size) (
          stop_or resize_stateful_set (
            wrap "error patching status: %v"
              (patch_status env (with_conditions_of (set_ready_waiting_storage_resize env.meta)))
            >> wait_for_storage_resize))

    abbrev pub change_size : SizeChange → Op State Requeue
    change_size no_change = pure nothing
    change_size (grow_to size) = grow size

    abbrev pub reconcile_sizes : Op State Requeue
    reconcile_sizes = do
      sts ← get_stateful_set env
      d ← doltdb_now
      change ← lift (compare_sizes sts.data_volume_size d.spec.storage.size)
      change_size change

    -- `Reconcile`.
    unfoldable pub reconcile_storage : Op State Requeue
    unfolding should_reconcile_storage compare_sizes grow call wait_for_storage_resize
    reconcile_storage = do
      d ← doltdb_now
      if not (should_reconcile_storage env.meta d)
          then pure nothing
          else if is_waiting_for_storage_resize env.meta d
          then wait_for_storage_resize
          else reconcile_sizes
