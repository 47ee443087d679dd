-- ===== src/Naming.antt =====
-- pkg/statefulset/statefulset.go: Pod names, Pod indices and host names.
pub mod RoundTrip
use doltdb_operator.Prelude.{
  ℕ, Bool, true, false, List, [], ◌∷◌, ◌++◌, Option, none, some, Bytes, codes, decimal, split,
  last_part, atoi, ltb, has_prefix, if◌then◌else◌, not, ◌≡◌, arith, refl,
}
use doltdb_operator.Effect.{Result, ok, err, message}

-- `PodName`.
unfoldable pub pod_name : Bytes → ℕ → Bytes
pod_name name index = name ++ b'-' ∷ decimal index

-- `ServiceFQDNWithService`; the environment's `CLUSTER_NAME` is an argument.
unfoldable pub service_fqdn_with_service : Bytes → Bytes → Bytes → Bytes
service_fqdn_with_service [] namespace service =
    service ++ (b'.' ∷ (namespace ++ codes ".svc.cluster.local"))
service_fqdn_with_service (c ∷ cluster) namespace service =
    service ++ (b'.' ∷ (namespace ++ (codes ".svc." ++ c ∷ cluster)))

-- `PodFQDNWithService`.
unfoldable pub pod_fqdn_with_service : Bytes → Bytes → Bytes → ℕ → Bytes → Bytes
unfolding service_fqdn_with_service
pod_fqdn_with_service cluster name namespace index service =
    pod_name name index ++ (b'.' ∷ service_fqdn_with_service cluster namespace service)

-- `PodShortFQDNWithServiceAndNamespace`.
unfoldable pub pod_short_fqdn : Bytes → Bytes → ℕ → Bytes → Bytes
unfolding pod_name
pod_short_fqdn name namespace index service =
    pod_name name index ++ (b'.' ∷ (service ++ b'.' ∷ namespace))

index_of : Option Bytes → Result ℕ
index_of none = err (message "invalid Pod name: %v")
index_of (some part) = elim (atoi part) [
  | none ↦ err (message "invalid Pod name: %v, error: %v")
  | some index ↦ ok index
]

-- `PodIndex`.
unfoldable pub pod_index : Bytes → Result ℕ
unfolding index_of
pod_index name = index_of (last_part (split b'-' name))

check_index : Bytes → ℕ → Bytes → Result ℕ → Result (Unit {0})
check_index name replicas pod (err e) = err (message "invalid Pod index: %v")
check_index name replicas pod (ok index) =
    if not (ltb index replicas)
    then err (message "index '%d' out of replicas range")
    else if not (has_prefix pod name)
    then err (message "invalid Pod name: must start with '%s'")
    else ok tt

-- `ValidPodName`, for a number of replicas that is not negative.
unfoldable pub valid_pod_name : Bytes → ℕ → Bytes → Result (Unit {0})
unfolding check_index pod_index
valid_pod_name name replicas pod = check_index name replicas pod (pod_index pod)
