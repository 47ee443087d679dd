-- ===== src/Cluster.antt =====
-- What the operator talks to: the Kubernetes API through controller-runtime's client, and the Dolt
-- servers through database/sql. Neither is part of the repository, so `Env` is a parameter: its
-- answers are any functions of the calls made so far. The trace lists those calls, the latest first.
pub mod Traces
pub mod Roles
use doltdb_operator.Prelude.{
  ℕ, Bool, List, [], ◌∷◌, Option, none, some, Bytes, String, ltb, any, keep, not, ◌==◌,
  if◌then◌else◌,
}
use doltdb_operator.Effect.{
  Error, Result, ok, err, message, Op, pure, fail, gets, modify, ◌>>=◌, ◌>>◌,
}
use doltdb_operator.Api.Condition.{Meta}
use doltdb_operator.Api.DoltDb.{DoltDb, DoltDbStatus, Spec}
use doltdb_operator.Api.Pod.{Pod}
use doltdb_operator.Conditions.{StsStatus}
use doltdb_operator.Dolt.{Role, DoltStatus}

-- A StatefulSet, by the fields that are read: `Spec.Replicas`, the request of the data volume's
-- claim template, and of its status the revision and the two counts.
pub record StatefulSet : Type 0 where
  pub spec_replicas : Option ℕ
  pub data_volume_size : Option ℕ
  pub update_revision : Bytes
  pub counts : StsStatus

-- A PersistentVolumeClaim: its name, its requested size, and its conditions.
pub data PvcConditionType : Type 0 where
  resizing file_system_resize_pending other_condition : PvcConditionType

pub record PvcCondition : Type 0 where
  pub kind : PvcConditionType
  pub is_true : Bool

pub record Pvc : Type 0 where
  pub name : Bytes
  pub request : ℕ
  pub conditions : List PvcCondition

-- An EndpointSlice: its ports, and of each endpoint the `Ready` condition.
pub record EndpointSlice : Type 0 where
  pub ports : List (Option ℕ)
  pub endpoints : List (Option Bool)

-- A row that `DOLT_CLUSTER_TRANSITION_TO_STANDBY` returns, its remote URL parsed by net/url into
-- `Host` and `Hostname()`.
pub record TransitionRow : Type 0 where
  pub caught_up : ℕ
  pub host : Bytes
  pub hostname : Bytes

-- A call of the operator, with what it asks for.
pub data Event : Type 0 where
  got_stateful_set listed_pods listed_pvcs listed_endpoint_slices got_doltdb : Event
  got_pod deleted_pod : Bytes → Event
  labelled_pod : Pod → Event
  unlabelled_pod : Bytes → Event
  connected queried_role queried_status queried_version : ℕ → Event
  transitioned : ℕ → ℕ → Event
  assumed_role : ℕ → Role → ℕ → Event
  patched_spec : Spec → Event
  patched_status : DoltDbStatus → Event
  patched_pvc : Pvc → Event
  deleted_stateful_set reconciled_stateful_set polled : Event

abbrev pub Trace : Type 0
Trace = List Event

pub record Env : Type 0 where
  pub meta : Meta
  pub get_stateful_set : Trace → Result StatefulSet
  pub list_pods : Trace → Result (List Pod)
  pub get_pod : Trace → Bytes → Result Pod
  pub delete_pod : Trace → Bytes → Result (Unit {0})
  pub patch_pod : Trace → Pod → Result (Unit {0})
  pub list_pvcs : Trace → Result (List Pvc)
  pub patch_pvc : Trace → Pvc → Result (Unit {0})
  pub list_endpoint_slices : Trace → Result (List EndpointSlice)
  pub delete_stateful_set : Trace → Result (Unit {0})
  -- A patch answers with the object as the server has it then.
  pub patch_status : Trace → DoltDb → Result DoltDb
  pub patch_doltdb : Trace → DoltDb → Result DoltDb
  pub get_doltdb : Trace → Result DoltDb
  -- Opening a client of the server in the Pod with an index, and its queries.
  pub connect : Trace → ℕ → Result (Unit {0})
  pub query_role : Trace → ℕ → Result (Option (Role × ℕ))
  pub query_cluster_status : Trace → ℕ → Result (List DoltStatus)
  pub query_version : Trace → ℕ → Result Bytes
  pub call_assume_role : Trace → ℕ → Role → ℕ → Result (Option ℕ)
  pub call_transition : Trace → ℕ → ℕ → ℕ → Result (List TransitionRow)
  -- Go's order of iteration over a map of counts.
  pub map_order : List (Bytes × ℕ) → List (Bytes × ℕ)
  -- How often a poll runs before its context ends.
  pub poll_rounds : Trace → ℕ

-- The DoltDB object that the reconcilers share and mutate, the calls so far, and the indices whose
-- clients the `ClientSet` holds.
pub record State : Type 0 where
  pub doltdb : DoltDb
  pub trace : Trace
  pub clients : List ℕ

-- A call: it is on the trace when it is answered.
unfoldable pub call : {A : Type 0} → Event → (Trace → Result A) → Op State A
call e answer s = let t = e ∷ s.trace in (answer t, record s { trace = t })

abbrev pub doltdb_now : Op State DoltDb
doltdb_now = gets (λ s. s.doltdb)

unfoldable pub set_doltdb : DoltDb → Op State (Unit {0})
unfolding modify
set_doltdb d = modify λ s. record s { doltdb = d }

abbrev change_status : (DoltDbStatus → DoltDbStatus) → DoltDb → DoltDb
change_status f d = record d { status = f d.status }

module _ (env : Env) where
  -- `patchStatus` and `PatchStatus`: the patcher changes the object in place, then the server is
  -- asked; what the server answers replaces the object.
  unfoldable pub patch_status : (DoltDbStatus → DoltDbStatus) → Op State (Unit {0})
  unfolding set_doltdb call
  patch_status patcher = do
    d ← doltdb_now
    let d' = change_status patcher d
    set_doltdb d'
    answer ← call (patched_status d'.status) (λ t. env.patch_status t d')
    set_doltdb answer

  -- `r.Patch(ctx, doltdb, patch)` after a change of the spec in place.
  unfoldable pub patch_doltdb : (DoltDb → DoltDb) → Op State (Unit {0})
  unfolding set_doltdb call
  patch_doltdb patcher = do
    d ← doltdb_now
    let d' = patcher d
    set_doltdb d'
    answer ← call (patched_spec d'.spec) (λ t. env.patch_doltdb t d')
    set_doltdb answer

  abbrev pub get_stateful_set : Op State StatefulSet
  get_stateful_set = call got_stateful_set env.get_stateful_set

  abbrev pub list_pods : Op State (List Pod)
  list_pods = call listed_pods env.list_pods

  abbrev pub get_pod : Bytes → Op State Pod
  get_pod name = call (got_pod name) (λ t. env.get_pod t name)

  abbrev pub delete_pod : Bytes → Op State (Unit {0})
  delete_pod name = call (deleted_pod name) (λ t. env.delete_pod t name)

  -- `NewInternalClientWithPodIndex`.
  abbrev pub connect : ℕ → Op State (Unit {0})
  connect index = call (connected index) (λ t. env.connect t index)
