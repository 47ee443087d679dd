-- ===== src/Naming/RoundTrip.antt =====
-- Pod names and Pod indices are inverse to one another.
use doltdb_operator.Prelude.{
  ℕ, ◌<◌, ◌^◌, ◌≡◌, ◌∙◌, ap, refl, ◌↔◌, true, Bytes, ◌∷◌, decimal, last_part-split,
  decimal-Lacks_dash, atoi-decimal, has_prefix, has_prefix-append, arith,
}
use doltdb_operator.Effect.{ok}
use doltdb_operator.Naming.{pod_name, pod_index, index_of, valid_pod_name}

-- The index of the Pod named after a StatefulSet and an index is that index, whatever the name of
-- the StatefulSet holds, for an index in the range of an int.
pub pod_index-pod_name :
    (name : Bytes) (index : ℕ) → index < 2 ^ 63 → pod_index (pod_name name index) ≡ ok index
unfolding pod_index pod_name
pod_index-pod_name name index h =
    ap index_of (last_part-split b'-' name (decimal index) (decimal-Lacks_dash index))
    ∙ (rw (atoi-decimal index h, index_of) refl)

-- Two Pods of one StatefulSet have one name only if they have one index.
pub pod_name-injective :
    (name : Bytes) (i j : ℕ) → i < 2 ^ 63 → j < 2 ^ 63 → pod_name name i ≡ pod_name name j → i ≡ j
pod_name-injective name i j hi hj e =
    cc (pod_index-pod_name name i hi, pod_index-pod_name name j hj)

has_prefix_of_pod_name : (name : Bytes) (index : ℕ) → has_prefix (pod_name name index) name ≡ true
unfolding pod_name
has_prefix_of_pod_name name index = has_prefix-append name (b'-' ∷ decimal index)

-- The name of the Pod at an index is valid for a StatefulSet exactly when the index is below its
-- number of replicas.
valid_pod_name-pod_name :
    (name : Bytes) (replicas index : ℕ)
    → index < 2 ^ 63
    → (valid_pod_name name replicas (pod_name name index) ≡ ok tt) ↔ (index < replicas)
unfolding valid_pod_name
valid_pod_name-pod_name name replicas index h =
    ground (arith, pod_index-pod_name name index h, has_prefix_of_pod_name name index)
