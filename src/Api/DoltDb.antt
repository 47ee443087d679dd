-- ===== src/Api/DoltDb.antt =====
-- api/v1alpha/doltdb_types.go, replication_types.go and doltdb_keys.go: the DoltDB object, the
-- defaults of its replication spec, and the names of what it owns. Pod indices, replica counts and
-- epochs are not negative here; a pointer is an `Option`.
use doltdb_operator.Prelude.{
  ℕ, Bool, true, false, List, [], ◌∷◌, ◌++◌, Option, none, some, Bytes, codes, decimal, ◌==◌, ◌&&◌,
  if◌then◌else◌, deref,
}
use doltdb_operator.Effect.{Result, ok, err, message}
use doltdb_operator.Api.Condition.{Condition}

pub data UpdateType : Type 0 where
  unset replicas_first_primary_last rolling_update on_delete never : UpdateType

pub record PrimaryReplication : Type 0 where
  pub pod_index : Option ℕ
  pub automatic_failover : Option Bool
  pub min_caught_up_standbys : Option ℕ

pub record ReplicationSpec : Type 0 where
  pub enabled : Bool
  pub primary : Option PrimaryReplication

-- `Size` is a `resource.Quantity`, in bytes.
pub record Storage : Type 0 where
  pub size : Option ℕ
  pub resize_in_use_volumes : Option Bool
  pub wait_for_volume_resize : Option Bool

pub data ReplicationState : Type 0 where
  primary standby not_configured : ReplicationState

-- A Go map by its entries; `none` is the nil map.
abbrev pub ReplicationStatus : Type 0
ReplicationStatus = List (Bytes × ReplicationState)

pub record Spec : Type 0 where
  pub replicas : ℕ
  pub update_strategy : UpdateType
  pub replication : Option ReplicationSpec
  pub storage : Storage
  pub listener_port : ℕ

pub record DoltDbStatus : Type 0 where
  pub conditions : List Condition
  pub current_primary_pod_index : Option ℕ
  pub current_primary : Option Bytes
  pub replicas : ℕ
  pub replication_status : Option ReplicationStatus
  pub replication_epoch : Option ℕ

pub record DoltDb : Type 0 where
  pub name : Bytes
  pub namespace : Bytes
  pub spec : Spec
  pub status : DoltDbStatus

abbrev pub default_primary_replication : PrimaryReplication
default_primary_replication = record {
  pod_index = some 0;
  automatic_failover = some true;
  min_caught_up_standbys = none;
}

-- `PrimaryReplication.FillWithDefaults`.
abbrev pub fill_primary : PrimaryReplication → PrimaryReplication
fill_primary p = record p {
  pod_index = some (deref p.pod_index 0);
  automatic_failover = some (deref p.automatic_failover true);
}

-- `ReplicationSpec.FillWithDefaults`.
abbrev pub fill_with_defaults : ReplicationSpec → ReplicationSpec
fill_with_defaults r = record r {
  primary = some (elim r.primary [ none ↦ default_primary_replication | some p ↦ fill_primary p ]);
}

-- `DoltDB.Replication`: the spec with its defaults, which the accessor also writes back.
abbrev pub replication : DoltDb → ReplicationSpec
replication d =
    fill_with_defaults (deref d.spec.replication (record { enabled = false; primary = none }))

abbrev pub with_replication : DoltDb → DoltDb
with_replication d = record d { spec = record d.spec { replication = some (replication d) } }

abbrev pub primary_replication : DoltDb → PrimaryReplication
primary_replication d = deref (replication d).primary default_primary_replication

-- `doltdb.Replication().Primary.PodIndex`, never nil once the defaults are filled in.
abbrev pub primary_pod_index : DoltDb → ℕ
primary_pod_index d = deref (primary_replication d).pod_index 0

abbrev pub replication_enabled : DoltDb → Bool
replication_enabled d = (replication d).enabled

-- `doltdb.Replication().Primary.PodIndex = &index`.
abbrev pub set_primary_pod_index : ℕ → DoltDb → DoltDb
set_primary_pod_index index d = record d {
  spec = record d.spec {
    replication = some (record (replication d) {
      primary = some (record (primary_replication d) { pod_index = some index });
    });
  };
}

configured_from : Bool → ReplicationStatus → Bool
configured_from any_replica [] = any_replica
configured_from any_replica ((pod, not_configured) ∷ rest) = false
configured_from any_replica ((pod, standby) ∷ rest) = configured_from true rest
configured_from any_replica ((pod, primary) ∷ rest) = configured_from any_replica rest

-- `ReplicationStatus.IsReplicationConfigured`, on the entries in the order of the iteration.
unfoldable pub is_status_configured : ReplicationStatus → Bool
unfolding configured_from
is_status_configured r = configured_from false r

-- `DoltDB.IsReplicationConfigured`.
unfoldable pub is_replication_configured : DoltDb → Bool
unfolding is_status_configured
is_replication_configured d = is_status_configured (deref d.status.replication_status [])

-- `DoltDB.ValidateReplicationSpec`.
unfoldable pub validate_replication_spec : DoltDb → Result (Unit {0})
validate_replication_spec d =
    if d.spec.replicas == 1 && replication_enabled d
    then err (
        message
          "replication cannot be enabled with a single replica; set replicas > 1 or disable replication")
    else ok tt

abbrev suffixed : DoltDb → Bytes → Bytes
suffixed d suffix = d.name ++ suffix

-- `InternalServiceKey().Name` and the other names of `doltdb_keys.go`.
abbrev pub internal_service_name : DoltDb → Bytes
internal_service_name d = suffixed d (codes "-internal")

abbrev pub primary_service_name : DoltDb → Bytes
primary_service_name d = suffixed d (codes "-primary")

abbrev pub reader_service_name : DoltDb → Bytes
reader_service_name d = suffixed d (codes "-reader")

abbrev pub pod_disruption_budget_name : DoltDb → Bytes
pod_disruption_budget_name d = suffixed d (codes "-pdb")

abbrev pub config_map_name : DoltDb → Bytes
config_map_name d = suffixed d (codes "-config")

abbrev pub pvc_name : DoltDb → Bytes → ℕ → Bytes
pvc_name d volume index = volume ++ b'-' ∷ (d.name ++ b'-' ∷ decimal index)
