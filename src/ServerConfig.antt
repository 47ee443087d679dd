-- ===== src/ServerConfig.antt =====
-- pkg/dolt/generate.go and config.go: the configuration that each server of a DoltDB gets. The writer
-- of YAML is an argument.
pub mod Mesh
use doltdb_operator.Prelude.{
  ℕ, zero, suc, Bool, true, false, List, [], ◌∷◌, ◌++◌, Option, none, some, Bytes, codes, decimal,
  ◌==◌, is_empty, if◌then◌else◌,
}
use doltdb_operator.Effect.{Result, ok, err, message}
use doltdb_operator.Api.DoltDb.{DoltDb, replication_enabled, internal_service_name}
use doltdb_operator.Naming.{pod_name, pod_short_fqdn}

-- The spec of the server, as far as its configuration takes it; its port is that of the DoltDB.
pub record MetricsSpec : Type 0 where
  pub enabled : Bool
  pub labels : List (Bytes × Bytes)
  pub host : Bytes
  pub port : ℕ

pub record McpSpec : Type 0 where
  pub port : ℕ
  pub user : Bytes
  pub database : Bytes

pub record ServerSpec : Type 0 where
  pub auto_gc : Bool
  pub log_level : Bytes
  pub host : Bytes
  pub max_connections : ℕ
  pub remotes_api_port : ℕ
  pub metrics : Option MetricsSpec
  pub mcp_server : Option McpSpec

pub record Listener : Type 0 where
  pub host : Bytes
  pub port : ℕ
  pub max_connections : ℕ

pub record Metrics : Type 0 where
  pub labels : List (Bytes × Bytes)
  pub host : Bytes
  pub port : ℕ

pub record McpServer : Type 0 where
  pub port : ℕ
  pub user : Bytes
  pub password : Bytes
  pub database : Bytes

pub record StandbyRemote : Type 0 where
  pub name : Bytes
  pub remote_url_template : Bytes

pub record Cluster : Type 0 where
  pub standby_remotes : List StandbyRemote
  pub bootstrap_epoch : ℕ
  pub bootstrap_role : Bytes
  pub remotes_api_port : ℕ

-- `Behavior` holds one flag.
pub record Config : Type 0 where
  pub auto_gc : Bool
  pub log_level : Bytes
  pub cluster : Option Cluster
  pub listener : Listener
  pub metrics : Metrics
  pub mcp_server : Option McpServer

abbrev pub get_int_value_or_default : ℕ → ℕ → ℕ
get_int_value_or_default value default = if value == 0 then default else value

abbrev remote_to : DoltDb → ℕ → ℕ → StandbyRemote
remote_to d port i = record {
  name = pod_name d.name i;
  remote_url_template =
      codes "http://"
      ++ pod_short_fqdn d.name d.namespace i (internal_service_name d)
      ++ codes ":"
      ++ decimal port
      ++ codes "/{database}";
}

-- The loop of `generateStandbyRemotes` from an index on, for as many as remain.
unfoldable pub remotes_from : DoltDb → ℕ → ℕ → ℕ → ℕ → List StandbyRemote
remotes_from d port current i zero = []
remotes_from d port current i (suc remaining) =
    let rest = remotes_from d port current (suc i) remaining in
    if i == current then rest else remote_to d port i ∷ rest

-- `generateStandbyRemotes`.
unfoldable pub generate_standby_remotes : ℕ → DoltDb → ℕ → List StandbyRemote
unfolding remotes_from
generate_standby_remotes current d port = remotes_from d port current 0 d.spec.replicas

-- `getBootstrapRole`.
abbrev pub get_bootstrap_role : ℕ → Bytes
get_bootstrap_role index = if index == 0 then codes "primary" else codes "standby"

abbrev metrics_of : Option MetricsSpec → Metrics
metrics_of none = record { labels = []; host = []; port = 0 }
metrics_of (some m) =
    if m.enabled
    then record { labels = m.labels; host = m.host; port = m.port }
    else record { labels = []; host = []; port = 0 }

abbrev mcp_of : Option McpSpec → Option McpServer
mcp_of none = none
mcp_of (some m) = some (record {
  port = m.port;
  user = if is_empty m.user then codes "${DOLT_USERNAME}" else codes "${DOLT_MCP_USER}";
  password = codes "${DOLT_MCP_PASSWORD}";
  database = m.database;
})

-- The configuration of the server with an index.
unfoldable pub config_at : DoltDb → ServerSpec → ℕ → Config
unfolding generate_standby_remotes
config_at d s i =
    let port = get_int_value_or_default s.remotes_api_port 50051 in
    record {
      auto_gc = s.auto_gc;
      log_level = s.log_level;
      listener = record {
        host = s.host;
        port = d.spec.listener_port;
        max_connections = s.max_connections;
      };
      cluster =
          if replication_enabled d
          then some (record {
            standby_remotes = generate_standby_remotes i d port;
            bootstrap_epoch = 1;
            bootstrap_role = get_bootstrap_role i;
            remotes_api_port = port;
          })
          else none;
      metrics = metrics_of s.metrics;
      mcp_server = mcp_of s.mcp_server;
    }

-- The name of the server's file in the ConfigMap.
abbrev pub file_name : DoltDb → ℕ → Bytes
file_name d i = pod_name d.name i ++ codes ".yaml"

module _ (marshal : Config → Result Bytes) (d : DoltDb) (s : ServerSpec) where
  abbrev add_file : ℕ → Result Bytes → Result (List (Bytes × Bytes)) → Result (List (Bytes × Bytes))
  add_file i (err e) rest = err (message "error marshaling DoltDB config to YAML: %v")
  add_file i (ok text) (err e) = err e
  add_file i (ok text) (ok files) = ok ((file_name d i, text) ∷ files)

  unfoldable pub files_from : ℕ → ℕ → Result (List (Bytes × Bytes))
  unfolding config_at
  files_from i zero = ok []
  files_from i (suc remaining) =
      add_file i (marshal (config_at d s i)) (files_from (suc i) remaining)

  -- `GenerateConfigMapData`: a map with one file for each server.
  unfoldable pub generate_config_map_data : Result (List (Bytes × Bytes))
  unfolding files_from
  generate_config_map_data = files_from 0 d.spec.replicas
