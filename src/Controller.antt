-- ===== src/Controller.antt =====
-- internal/controller/doltdb_controller.go: the phases of the DoltDB reconciler, in their order. The
-- reconcilers that build ConfigMaps, RBAC objects, budgets and Services are arguments.
pub mod ScaleDown
use doltdb_operator.Prelude.{
  ℕ, Bool, true, false, List, [], ◌∷◌, Option, none, some, Bytes, codes, ltb, ◌==◌, ◌||◌, not,
  if◌then◌else◌, deref,
}
use doltdb_operator.Effect.{
  Error, not_found, skip_phase, message, Requeue, nothing, again, is_zero, is_not_found, Result, ok,
  err, Op, pure, fail, gets, modify, lift, ◌>>=◌, ◌>>◌, attempt, wrap,
}
use doltdb_operator.Api.Condition.{Meta, ready, condition_false, invalid_spec}
use doltdb_operator.Api.DoltDb.{
  DoltDb, DoltDbStatus, set_primary_pod_index, replication_enabled, validate_replication_spec,
}
use doltdb_operator.Conditions.{set, set_ready_failed_with_message}
use doltdb_operator.Cluster.{
  Env, State, StatefulSet, call, set_doltdb, doltdb_now, get_stateful_set, patch_status,
  patch_doltdb, got_doltdb,
}
use doltdb_operator.Replication.Reconcile.{reconcile}
use doltdb_operator.Status.{reconcile_status}
use doltdb_operator.Labels.{reconcile_pod_labels}
use doltdb_operator.Storage.{reconcile_storage, with_conditions_of}

-- `shouldSkipPhase`.
unfoldable pub should_skip_phase : Error → Bool
should_skip_phase not_found = true
should_skip_phase skip_phase = true
should_skip_phase _ = false

module _ (env : Env) where
  -- What the loop does with an error: the phase is skipped, or the status tells of the error, which
  -- is then returned whether or not that patch succeeds.
  abbrev pub on_error : Op State Requeue → Error → Op State Requeue
  on_error rest e =
      if should_skip_phase e
      then rest
      else attempt
          (patch_status env (
            with_conditions_of
              (set_ready_failed_with_message env.meta (codes "Error reconciling %s: %v"))))
          (λ _. fail (message "error reconciling %s: %v"))
          (λ _. fail (message "error reconciling %s: %v"))

  -- The loop of `Reconcile`.
  unfoldable pub run_phases : List (Op State Requeue) → Op State Requeue
  unfolding should_skip_phase patch_status
  run_phases [] = pure nothing
  run_phases (phase ∷ rest) =
      attempt phase (λ r. if is_zero r then run_phases rest else pure r)
        (on_error (run_phases rest))

  abbrev pub move_primary_first : Op State Requeue
  move_primary_first =
      wrap "error patching DoltDB to transition primary before scale-down: %v"
        (patch_doltdb env (set_primary_pod_index 0))
      >> pure again

  abbrev pub scale_down : ℕ → DoltDb → StatefulSet → Op State Requeue
  scale_down primary_index d sts =
      if not (ltb d.spec.replicas (deref sts.spec_replicas 0))
      then pure nothing
      else if ltb primary_index d.spec.replicas
      then pure nothing
      else move_primary_first

  abbrev pub scale_down_from : DoltDb → Option ℕ → Op State Requeue
  scale_down_from d none = pure nothing
  scale_down_from d (some primary_index) =
      attempt (get_stateful_set env) (scale_down primary_index d)
        (λ e. if is_not_found e then pure nothing else fail e)

  -- `reconcilePreScaleDown`.
  unfoldable pub reconcile_pre_scale_down : Op State Requeue
  unfolding call patch_doltdb
  reconcile_pre_scale_down = do
    d ← doltdb_now
    if not (replication_enabled d)
        then pure nothing
        else scale_down_from d d.status.current_primary_pod_index

  abbrev invalid_status : Bytes → DoltDbStatus → DoltDbStatus
  invalid_status text = with_conditions_of (set env.meta ready condition_false invalid_spec text)

  abbrev reject_spec : Op State Requeue
  reject_spec =
      wrap "error patching status: %v"
        (patch_status env (invalid_status (codes "Invalid spec: %v")))
      >> pure nothing

  -- `Reconcile`, with the phases that are not modelled as arguments.
  module _ (config_map rbac stateful_set pod_disruption_budget service : Op State Requeue) where
    abbrev pub phases : List (Op State Requeue)
    phases =
        reconcile_status env
        ∷ config_map
        ∷ rbac
        ∷ reconcile_storage env stateful_set
        ∷ reconcile_pre_scale_down
        ∷ stateful_set
        ∷ pod_disruption_budget
        ∷ service
        ∷ reconcile env
        ∷ reconcile_pod_labels env
        ∷ []

    abbrev reconcile_valid : DoltDb → Op State Requeue
    reconcile_valid d =
        attempt (lift (validate_replication_spec d)) (λ _. run_phases phases) (λ _. reject_spec)

    unfoldable pub reconcile_doltdb : Op State Requeue
    unfolding call set_doltdb patch_status run_phases
    reconcile_doltdb =
        attempt (call got_doltdb env.get_doltdb) (λ d. set_doltdb d >> reconcile_valid d)
          (λ e. if is_not_found e then pure nothing else fail e)
