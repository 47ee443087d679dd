-- ===== src/Scenarios/Configuring.antt =====
-- The theorem on the configuration of the servers at a concrete DoltDB.
use doltdb_operator.Prelude.{ℕ, [], codes, ◌≢◌, ◌↔◌, ◌<◌, In, arith}
use doltdb_operator.Naming.{pod_name}
use doltdb_operator.ServerConfig.{generate_standby_remotes}
use doltdb_operator.ServerConfig.Mesh.{remote_names, remotes_are_the_others}
use doltdb_operator.Scenarios.{desired_at}

remotes_are_the_others_example :
    In (pod_name (codes "db") 1) (remote_names (generate_standby_remotes 0 (desired_at 1 []) 50051))
    ↔ ((1 < 2) × (◌≢◌ {A = ℕ} 1 0))
remotes_are_the_others_example =
    remotes_are_the_others (desired_at 1 []) 50051 0 1 (ground arith) (ground arith)
