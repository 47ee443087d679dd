-- ===== src/PodRoles.antt =====
-- pkg/dolt/replication.go: `MarkRoleStandby` and `MarkRolePrimary`, which differ in the role.
use doltdb_operator.Prelude.{Bytes, codes, [], some, ◌≡◌, str_eq}
use doltdb_operator.Effect.{Op}
use doltdb_operator.Api.Pod.{Pod, label, set_label, label-set_label}
use doltdb_operator.Dolt.{Role, primary, standby}
use doltdb_operator.Cluster.{Env, State, call, labelled_pod}

abbrev pub role_label : Bytes
role_label = codes "k8s.dolthub.com/cluster-role"

abbrev pub role_text : Role → Bytes
role_text primary = codes "primary"
role_text standby = codes "standby"
role_text _ = []

-- The Pod with its role label set.
unfoldable pub with_role : Role → Pod → Pod
with_role role pod = record pod { labels = set_label role_label (role_text role) pod.labels }

-- `client.Patch` of a Pod whose labels were changed: the Pod that is sent.
unfoldable pub patch_labels : Env → Pod → Op State (Unit {0})
unfolding call
patch_labels env sent = call (labelled_pod sent) (λ t. env.patch_pod t sent)

-- `MarkRoleStandby` at `standby`, `MarkRolePrimary` at `primary`.
unfoldable pub mark_role : Env → Pod → Role → Op State (Unit {0})
unfolding patch_labels with_role
mark_role env pod role = patch_labels env (with_role role pod)

-- What the Pod that is sent says of its role.
pub label-with_role :
    (role : Role) (pod : Pod) → label role_label (with_role role pod).labels ≡ some (role_text role)
unfolding with_role str_eq
label-with_role role pod = label-set_label role_label role_label (role_text role) pod.labels
