-- ===== src/Labels.antt =====
-- internal/controller/doltdb_controller.go: `reconcilePodLabels` and `cleanPodRoleLabels`, and the
-- setters of pkg/builder that they use.
pub mod Due
use doltdb_operator.Prelude.{
  ℕ, Bool, true, false, List, [], ◌∷◌, Option, none, some, Bytes, codes, ◌==◌, ◌||◌, not,
  if◌then◌else◌, is_empty, is_some,
}
use doltdb_operator.Effect.{
  Error, conflict, message, Requeue, nothing, again, after, is_not_found, Result, ok, err, Op, pure,
  fail, gets, modify, lift, ◌>>=◌, ◌>>◌, attempt, wrap,
}
use doltdb_operator.Api.DoltDb.{DoltDb, replication_enabled}
use doltdb_operator.Api.Pod.{Pod, label, set_label, delete_label, is_pod_ready}
use doltdb_operator.Dolt.{Role, primary, standby}
use doltdb_operator.Naming.{pod_name, pod_index}
use doltdb_operator.PodRoles.{role_label, with_role, patch_labels}
use doltdb_operator.Cluster.{Env, State, call, doltdb_now, list_pods, unlabelled_pod}

abbrev pub pod_name_label : Bytes
pod_name_label = codes "statefulset.kubernetes.io/pod-name"

abbrev is_conflict : Error → Bool
is_conflict conflict = true
is_conflict _ = false

abbrev pub role_at : ℕ → ℕ → Role
role_at index current = if index == current then primary else standby

-- The labels of `WithStatefulSetPod` and of the role.
unfoldable pub with_pod_labels : DoltDb → ℕ → Role → Pod → Pod
unfolding with_role
with_pod_labels d index role pod =
    with_role role
      (record pod { labels = set_label pod_name_label (pod_name d.name index) pod.labels })

unfoldable pub without_role : Pod → Pod
without_role pod = record pod { labels = delete_label role_label pod.labels }

module _ (env : Env) where
  -- A patch that meets a conflict or a missing Pod asks for another pass.
  abbrev pub patch_or_requeue : Op State (Unit {0}) → Op State Requeue → Op State Requeue
  patch_or_requeue patch rest =
      attempt patch (λ _. rest)
        (λ e. if is_conflict e || is_not_found e then pure again else fail e)

  abbrev pub label_ready : DoltDb → ℕ → Role → Pod → Op State Requeue → Op State Requeue
  label_ready d index role pod rest =
      if is_pod_ready pod
      then patch_or_requeue (patch_labels env (with_pod_labels d index role pod)) rest
      else rest

  abbrev pub label_indexed : DoltDb → ℕ → Result ℕ → Pod → Op State Requeue → Op State Requeue
  label_indexed d current (err e) pod rest = fail (message "error getting Pod '%s' index: %v")
  label_indexed d current (ok index) pod rest = label_ready d index (role_at index current) pod rest

  abbrev pub label_placed : DoltDb → Option ℕ → Pod → Op State Requeue → Op State Requeue
  label_placed d none pod rest = pure (after 1)
  label_placed d (some current) pod rest =
      if is_empty pod.pod_ip || is_empty pod.node_name
      then rest
      else label_indexed d current (pod_index pod.name) pod rest

  -- The loop over the Pods.
  unfoldable pub label_pods : List Pod → Op State Requeue
  unfolding patch_labels with_pod_labels
  label_pods [] = pure nothing
  label_pods (p ∷ ps) =
      let rest = label_pods ps in
      doltdb_now >>= λ d. label_placed d d.status.current_primary_pod_index p rest

  unfoldable pub clean_pods : List Pod → Op State Requeue
  unfolding call without_role
  clean_pods [] = pure nothing
  clean_pods (p ∷ ps) =
      let rest = clean_pods ps in
      if is_some (label role_label p.labels)
      then patch_or_requeue (call (unlabelled_pod p.name) (λ t. env.patch_pod t (without_role p)))
          rest
      else rest

  -- `cleanPodRoleLabels`.
  unfoldable pub clean_pod_role_labels : Op State Requeue
  unfolding clean_pods call
  clean_pod_role_labels = wrap "error listing Pods: %v" (list_pods env) >>= clean_pods

  abbrev pub label_all : Option ℕ → Op State Requeue
  label_all none = pure (after 1)
  label_all (some current) = wrap "error listing Pods: %v" (list_pods env) >>= label_pods

  -- `reconcilePodLabels`.
  unfoldable pub reconcile_pod_labels : Op State Requeue
  unfolding clean_pod_role_labels label_pods call
  reconcile_pod_labels = do
    d ← doltdb_now
    if not (replication_enabled d)
        then clean_pod_role_labels
        else label_all d.status.current_primary_pod_index
