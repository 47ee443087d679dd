-- ===== src/Api/Pod.antt =====
-- pkg/pod/pod.go: the parts of a Pod that the operator reads, its readiness and its revision.
use doltdb_operator.Prelude.{
  Bool, true, false, List, [], ◌∷◌, Option, none, some, Bytes, codes, str_eq, str_eq_iff, ◌≡◌,
  if◌then◌else◌, arith,
}
use doltdb_operator.Api.Condition.{ConditionStatus, is_true}

abbrev pub Labels : Type 0
Labels = List (Bytes × Bytes)

unfoldable pub label : Bytes → Labels → Option Bytes
label k [] = none
label k ((j, v) ∷ rest) = if str_eq j k then some v else label k rest

-- `m[k] = v` on a map.
unfoldable pub set_label : Bytes → Bytes → Labels → Labels
set_label k v [] = (k, v) ∷ []
set_label k v ((j, w) ∷ rest) = if str_eq j k then (k, v) ∷ rest else (j, w) ∷ set_label k v rest

-- `delete(m, k)` on a map.
unfoldable pub delete_label : Bytes → Labels → Labels
delete_label k [] = []
delete_label k ((j, w) ∷ rest) =
    let others = delete_label k rest in if str_eq j k then others else (j, w) ∷ others

pub data PodConditionType : Type 0 where
  pod_ready other_condition : PodConditionType

pub record PodCondition : Type 0 where
  pub kind : PodConditionType
  pub status : ConditionStatus

pub record Pod : Type 0 where
  pub name : Bytes
  pub labels : Labels
  pub conditions : List PodCondition
  pub pod_ip : Bytes
  pub node_name : Bytes

abbrev is_ready_condition : PodCondition → Bool
is_ready_condition c = elim c.kind [ pod_ready ↦ true | other_condition ↦ false ]

unfoldable pub pod_ready_condition : List PodCondition → Option PodCondition
pod_ready_condition [] = none
pod_ready_condition (c ∷ cs) = if is_ready_condition c then some c else pod_ready_condition cs

unfoldable pub is_pod_ready : Pod → Bool
unfolding pod_ready_condition
is_pod_ready p = elim (pod_ready_condition p.conditions) [
  | none ↦ false
  | some c ↦ is_true c.status
]

abbrev pub revision_label : Bytes
revision_label = codes "controller-revision-hash"

unfoldable pub pod_updated : Pod → Bytes → Bool
unfolding label
pod_updated p update_revision = elim (label revision_label p.labels) [
  | none ↦ false
  | some r ↦ str_eq r update_revision
]

pub label-set_label :
    (k j v : Bytes) (m : Labels)
    → label j (set_label k v m) ≡ (if str_eq k j then some v else label j m)
unfolding label set_label
label-set_label k j v [] = ground arith
label-set_label k j v ((i, w) ∷ m) =
    ground (arith, str_eq_iff k j, str_eq_iff i k, str_eq_iff i j, label-set_label k j v m)
