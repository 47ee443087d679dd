-- ===== src/Scenarios.antt =====
-- Concrete objects and a concrete cluster, on which the theorems are applied.
pub mod Switching
pub mod Failover
pub mod Backups
pub mod Schedules
pub mod Resources
pub mod Updating
pub mod Reporting
pub mod Services
pub mod Configuring
pub mod Injecting
pub mod Snapshotting
pub mod Granting
use doltdb_operator.Prelude.{
  ℕ, Bool, true, false, List, [], ◌∷◌, Option, none, some, Bytes, codes, refl, if◌then◌else◌,
}
use doltdb_operator.Effect.{Result, ok, err, read_only, message}
use doltdb_operator.Api.Condition.{
  Condition, ConditionType, Meta, same_type, found_true, found_false, ready, primary_switched,
  storage_resized, condition_true, condition_false, switch_primary, resizing_storage,
}
use doltdb_operator.Api.DoltDb.{DoltDb, Spec, Storage, DoltDbStatus, replicas_first_primary_last}
use doltdb_operator.Api.Pod.{Pod, pod_ready, revision_label}
use doltdb_operator.Dolt.{Role, primary, standby}
use doltdb_operator.Cluster.{Env, State, StatefulSet}

abbrev pub find : List Condition → ConditionType → Option Condition
find [] t = none
find (c ∷ cs) t = if same_type c.kind t then some c else find cs t

-- Conditions as a list, the latest first.
abbrev pub list_meta : Meta
list_meta = record {
  find_status_condition = find;
  set_status_condition = λ cs c. c ∷ cs;
  is_status_condition_true = λ cs t. found_true (find cs t);
  is_status_condition_false = λ cs t. found_false (find cs t);
  find-set = λ cs c t. refl;
  true_found = λ cs t. refl;
  false_found = λ cs t. refl;
}

abbrev pub pod_at : Bytes → Pod
pod_at name = record {
  name = name;
  labels = (revision_label, codes "r1") ∷ [];
  conditions = record { kind = pod_ready; status = condition_true } ∷ [];
  pod_ip = codes "10.0.0.1";
  node_name = codes "node";
}

abbrev pub first_pod : Pod
first_pod = pod_at (codes "db-0")

abbrev pub second_pod : Pod
second_pod = pod_at (codes "db-1")

abbrev pub two_replicas : StatefulSet
two_replicas = record {
  spec_replicas = some 2;
  data_volume_size = some 10;
  update_revision = codes "r2";
  counts = record { replicas = 2; ready_replicas = 2 };
}

-- A cluster of two Pods, where every call succeeds and every server reports the role.
abbrev pub cluster : Role → Env
cluster role = record {
  meta = list_meta;
  get_stateful_set = λ t. ok two_replicas;
  list_pods = λ t. ok (first_pod ∷ second_pod ∷ []);
  get_pod = λ t name. ok (pod_at name);
  delete_pod = λ t name. ok tt;
  patch_pod = λ t p. ok tt;
  list_pvcs = λ t. ok [];
  patch_pvc = λ t p. ok tt;
  list_endpoint_slices = λ t. ok [];
  delete_stateful_set = λ t. ok tt;
  patch_status = λ t d. ok d;
  patch_doltdb = λ t d. ok d;
  get_doltdb = λ t. err (message "unused");
  connect = λ t i. ok tt;
  query_role = λ t i. ok (some (role, 4));
  query_cluster_status = λ t i. ok [];
  query_version = λ t i. ok [];
  call_assume_role = λ t i r e. ok (some 0);
  call_transition = λ t i e n. err (message "not enough standbys");
  map_order = λ l. l;
  poll_rounds = λ t. 0;
}

-- A DoltDB of two replicas whose primary is at the first index and should be at the second.
abbrev pub desired_at : ℕ → List Condition → DoltDb
desired_at index conditions = record {
  name = codes "db";
  namespace = codes "ns";
  spec = record {
    replicas = 2;
    update_strategy = replicas_first_primary_last;
    replication = some (record {
      enabled = true;
      primary = some (record {
        pod_index = some index;
        automatic_failover = some true;
        min_caught_up_standbys = none;
      });
    });
    storage = record {
      size = some 10;
      resize_in_use_volumes = none;
      wait_for_volume_resize = none;
    };
    listener_port = 3306;
  };
  status = record {
    conditions = conditions;
    current_primary_pod_index = some 0;
    current_primary = some (codes "db-0");
    replicas = 2;
    replication_status = none;
    replication_epoch = some 4;
  };
}

abbrev pub switching : Condition
switching = record {
  kind = primary_switched;
  status = condition_false;
  reason = switch_primary;
  message = [];
}

abbrev pub resizing : Condition
resizing = record {
  kind = storage_resized;
  status = condition_false;
  reason = resizing_storage;
  message = [];
}

abbrev pub state : DoltDb → State
state d = record { doltdb = d; trace = []; clients = [] }
