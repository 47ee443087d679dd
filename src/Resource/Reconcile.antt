-- ===== src/Resource/Reconcile.antt =====
-- pkg/controller/database/reconciler.go and finalizer.go: the reconciler that databases, users and
-- grants share. What differs is an argument, as in the source.
use doltdb_operator.Prelude.{
  ℕ, Bool, true, false, Option, none, some, Bytes, codes, ltb, if◌then◌else◌,
}
use doltdb_operator.Effect.{
  Error, message, is_not_found, Requeue, nothing, again, after, is_zero, Result, ok, err, Op, pure,
  fail, ◌>>=◌, ◌>>◌, attempt, wrap, stop_or,
}
use doltdb_operator.Api.DoltDb.{DoltDb}
use doltdb_operator.Conditions.{set_ready_failed_with_message, patcher_with_error}
use doltdb_operator.Cluster as Cluster
use doltdb_operator.Health.{HealthOpts, all_endpoints, is_stateful_set_healthy}
use doltdb_operator.Resource.{
  Resource, CleanupPolicy, skip, delete, State, Env, Wrapped, on_cluster,
}
use doltdb_operator.Resource.Client.{resolve_doltdb, new_client_with_doltdb}

-- Two errors joined by `errors.Join`, of operations whose results are known.
abbrev pub joined_error : Option Error → Result (Unit {0}) → Option Error
joined_error none (ok a) = none
joined_error none (err e) = some e
joined_error (some e) r = some e

abbrev pub tried : {A B : Type 0} → Op State A → (Result A → Op State B) → Op State B
tried m f = attempt m (λ a. f (ok a)) (λ e. f (err e))

-- `SqlOptions` and the operator's `CLUSTER_NAME`.
pub record Options : Type 0 where
  pub requeue_interval : ℕ
  pub cluster_name : Bytes

abbrev pub wait_opts : DoltDb → HealthOpts
wait_opts d = record {
  desired_replicas = some d.spec.replicas;
  port = some d.spec.listener_port;
  endpoint_policy = some all_endpoints;
}

-- `PatcherRefResolver`, for a DoltDB.
abbrev pub ref_resolver_text : Error → Bytes
ref_resolver_text e =
    if is_not_found e then codes "DoltDB not found" else codes "Error getting DoltDB"

abbrev pub retry_after : Option ℕ → Option Error → Requeue
retry_after (some seconds) e = after seconds
retry_after none (some e) = again
retry_after none none = nothing

-- `retryResult`: an error is logged and becomes a requeue.
unfoldable pub retry_result : Resource → Option Error → Requeue
retry_result r e = retry_after r.retry_interval e

abbrev pub requeue_after_or : Option ℕ → ℕ → Requeue
requeue_after_or (some seconds) default = after seconds
requeue_after_or none default = if ltb 0 default then after default else nothing

-- `requeueResult`.
unfoldable pub requeue_result : Options → Resource → Option Error → Requeue
requeue_result o r (some e) = again
requeue_result o r none = requeue_after_or r.requeue_interval o.requeue_interval

module _ (env : Env) where
  -- `WaitForDoltDB`.
  unfoldable pub wait_for_doltdb : DoltDb → Op State Requeue
  unfolding on_cluster
  wait_for_doltdb d =
      on_cluster (Cluster.set_doltdb d >> is_stateful_set_healthy env.cluster (wait_opts d))
      >>= λ healthy. pure (if healthy then nothing else after 1)

  module _ (o : Options) (w : Wrapped) where
    -- `SqlFinalizer.AddFinalizer`.
    unfoldable pub add_finalizer : Op State (Unit {0})
    add_finalizer s =
        (if w.contains_finalizer s
            then pure tt
            else wrap "error adding finalizer in TemplateFinalizer: %v" w.add_finalizer)
          s

    abbrev pub is_delete : Option CleanupPolicy → Bool
    is_delete none = true
    is_delete (some delete) = true
    is_delete (some skip) = false

    abbrev pub clean_up_by : Option CleanupPolicy → Op State (Unit {0})
    clean_up_by policy =
        if is_delete policy
        then wrap "error reconciling in TemplateFinalizer: %v" w.clean_up
        else pure tt

    abbrev pub clean_up_and_release : Option CleanupPolicy → Op State Requeue
    clean_up_and_release policy =
        clean_up_by policy
        >> (wrap "error removing finalizer in TemplateFinalizer: %v" w.remove_finalizer
            >> pure nothing)

    abbrev pub finalize_on : Resource → DoltDb → Op State Requeue
    finalize_on r d = stop_or (wait_for_doltdb d) (
        wrap "error connecting to DoltDB: %v" (new_client_with_doltdb env o.cluster_name d)
        >> clean_up_and_release r.cleanup_policy)

    -- Where the DoltDB is gone there is nothing to clean up.
    abbrev pub release_or_fail : Error → Op State Requeue
    release_or_fail e =
        if is_not_found e
        then wrap "error removing %s finalizer: %v" w.remove_finalizer >> pure nothing
        else fail (message "error getting doltdb: %v")

    -- `SqlFinalizer.Finalize`.
    unfoldable pub finalize : Resource → Op State Requeue
    unfolding wait_for_doltdb
    finalize r s =
        (if w.contains_finalizer s
            then attempt (resolve_doltdb env r) (finalize_on r) release_or_fail
            else pure nothing)
          s

    abbrev pub patch_failed : Bytes → Op State (Unit {0})
    patch_failed text = w.patch_status (set_ready_failed_with_message env.meta text)

    -- The result of a step that failed, after its condition is patched.
    abbrev pub fail_and_retry : Resource → Bytes → Error → Op State Requeue
    fail_and_retry r text e =
        tried (patch_failed text) λ patched. pure (retry_result r (joined_error (some e) patched))

    -- The patch of the condition, then a requeue.
    abbrev pub report : Resource → Option Error → Op State Requeue
    report r e =
        tried (w.patch_status (patcher_with_error env.meta e))
          λ patched. pure (requeue_result o r (joined_error e patched))

    abbrev pub added_error : Result (Unit {0}) → Option Error
    added_error (ok a) = none
    added_error (err e) = some (message "error adding finalizer to %s: %v")

    abbrev pub protect_and_report : Resource → Op State Requeue
    protect_and_report r = tried add_finalizer λ added. report r (added_error added)

    abbrev pub reconcile_on : Resource → DoltDb → Op State Requeue
    reconcile_on r d =
        attempt (new_client_with_doltdb env o.cluster_name d)
          (λ _.
            attempt w.reconcile (λ _. protect_and_report r)
              (fail_and_retry r (codes "Error creating %s: %v")))
          (fail_and_retry r (codes "Error connecting to DoltDB: %v"))

    -- An error of the wait is returned after its condition is patched.
    abbrev pub fail_waiting : Error → Op State Requeue
    fail_waiting e = tried (w.patch_status (patcher_with_error env.meta (some e))) λ patched. fail e

    abbrev pub fail_resolving : Error → Op State Requeue
    fail_resolving e =
        tried (patch_failed (ref_resolver_text e))
          λ patched. fail (message "error getting DoltDB: %v")

    abbrev pub reconcile_resolved : Resource → DoltDb → Op State Requeue
    reconcile_resolved r d =
        attempt (wait_for_doltdb d)
          (λ result. if is_zero result then reconcile_on r d else pure result) fail_waiting

    -- `SqlReconciler.Reconcile`.
    unfoldable pub reconcile_resource : Resource → Op State Requeue
    unfolding finalize wait_for_doltdb retry_result requeue_result add_finalizer
    reconcile_resource r =
        if r.is_being_deleted
        then finalize r
        else attempt (resolve_doltdb env r) (reconcile_resolved r) fail_resolving
