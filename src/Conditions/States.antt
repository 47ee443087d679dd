-- ===== src/Conditions/States.antt =====
-- The states that the setters put a DoltDB in, as its predicates read them.
use doltdb_operator.Prelude.{
  true, false, ◌≡◌, refl, List, arith, ◌&&◌, ◌==◌, not, inl, inr, Bool-cases,
}
use doltdb_operator.Api.Condition.{Condition, Meta}
use doltdb_operator.Api.DoltDb.{DoltDb}
use doltdb_operator.Api.Status.{
  is_switching_primary, is_ready, is_resizing_storage, is_waiting_for_storage_resize,
  has_pending_update, is_updating,
}
use doltdb_operator.Conditions.{
  StsStatus, set_primary_switching, set_primary_switched, set_ready_storage_resizing,
  set_ready_waiting_storage_resize, set_ready_storage_resized, set_pending_update, set_updating,
  set_updated, set_ready_with_dolt_db, sts_not_ready,
}

-- `d` with another list of conditions.
abbrev pub with_conditions : List Condition → DoltDb → DoltDb
with_conditions cs d = record d { status = record d.status { conditions = cs } }

module _ (m : Meta) (d : DoltDb) where
  abbrev change : (List Condition → List Condition) → DoltDb
  change f = with_conditions (f d.status.conditions) d

  -- Marking a switchover makes the DoltDB switching and not ready, and leaves the storage and
  -- update states; marking it done ends the switching and leaves readiness and the other states.
  abbrev pub SwitchingStates : Type 0
  SwitchingStates =
      let s = change (set_primary_switching m d) in
      let t = change (set_primary_switched m) in
      (is_switching_primary m s ≡ true)
      × (is_ready m s ≡ false)
      × (is_resizing_storage m s ≡ is_resizing_storage m d)
      × (is_updating m s ≡ is_updating m d)
      × (is_switching_primary m t ≡ false)
      × (is_ready m t ≡ is_ready m d)
      × (is_resizing_storage m t ≡ is_resizing_storage m d)
      × (is_updating m t ≡ is_updating m d)

  primary_switching_states : SwitchingStates
  unfolding set_primary_switching set_primary_switched is_switching_primary is_ready
      is_resizing_storage is_updating
  primary_switching_states =
      simp (m.true_found, m.false_found, m.find-set)
        (refl, refl, refl, refl, refl, refl, refl, refl)

  -- The two stages of a storage resize both count as resizing and not ready, and only the second
  -- counts as waiting; the end of the resize leaves readiness as it was.
  abbrev pub StorageStates : Type 0
  StorageStates =
      let s = change (set_ready_storage_resizing m) in
      let w = change (set_ready_waiting_storage_resize m) in
      let t = change (set_ready_storage_resized m) in
      (is_resizing_storage m s ≡ true)
      × (is_waiting_for_storage_resize m s ≡ false)
      × (is_ready m s ≡ false)
      × (is_resizing_storage m w ≡ true)
      × (is_waiting_for_storage_resize m w ≡ true)
      × (is_ready m w ≡ false)
      × (is_resizing_storage m t ≡ false)
      × (is_waiting_for_storage_resize m t ≡ false)
      × (is_ready m t ≡ is_ready m d)

  storage_states : StorageStates
  unfolding set_ready_storage_resizing set_ready_waiting_storage_resize set_ready_storage_resized
      is_resizing_storage is_waiting_for_storage_resize is_ready
  storage_states =
      simp (m.true_found, m.false_found, m.find-set)
        (refl, refl, refl, refl, refl, refl, refl, refl, refl)

  -- Of an update that is pending, in progress or done, exactly the matching predicate holds.
  abbrev pub UpdateStates : Type 0
  UpdateStates =
      let p = change (set_pending_update m) in
      let u = change (set_updating m) in
      let t = change (set_updated m) in
      (has_pending_update m p ≡ true)
      × (is_updating m p ≡ false)
      × (has_pending_update m u ≡ false)
      × (is_updating m u ≡ true)
      × (has_pending_update m t ≡ false)
      × (is_updating m t ≡ false)

  update_states : UpdateStates
  unfolding set_pending_update set_updating set_updated has_pending_update is_updating
  update_states = simp m.find-set (refl, refl, refl, refl, refl, refl)

  -- The setters and the predicates agree: marking a switchover makes the DoltDB switching and not
  -- ready, and marking it done ends that and leaves readiness; both stages of a resize count as
  -- resizing and not ready, the second alone as waiting, and its end leaves readiness; of an update
  -- that is pending, in progress or done, exactly the matching predicate holds. A switchover leaves
  -- the states of the storage and of the update.
  setters_states : SwitchingStates × StorageStates × UpdateStates
  setters_states = (primary_switching_states, storage_states, update_states)

  -- `SetReadyWithDoltDB` makes a DoltDB ready exactly when no update is in progress, the
  -- StatefulSet has replicas, and all of them are ready.
  is_ready-set_ready_with_dolt_db :
      (sts : StsStatus)
      → is_ready m (change (set_ready_with_dolt_db m sts d)) ≡ (
          not (is_updating m d)
          && (not (sts.replicas == 0) && (sts.ready_replicas == sts.replicas)))
  unfolding set_ready_with_dolt_db is_ready
  is_ready-set_ready_with_dolt_db sts = elim (Bool-cases (is_updating m d)) [
    | inl e ↦ rw e (simp (m.true_found, m.find-set))
    | inr e ↦ rw e (elim (Bool-cases (sts_not_ready sts)) [
      | inl f ↦ rw f (simp (m.true_found, m.find-set) (ground arith))
      | inr f ↦ rw f (elim (Bool-cases (has_pending_update m d)) [
        | inl g ↦ rw g (simp (m.true_found, m.find-set) (ground arith))
        | inr g ↦ rw g (simp (m.true_found, m.find-set) (ground arith))
      ])
    ])
  ]
