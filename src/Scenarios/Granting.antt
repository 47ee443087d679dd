-- ===== src/Scenarios/Granting.antt =====
-- The theorem on the RBAC objects at a concrete DoltDB.
use doltdb_operator.Prelude.{[], ◌∷◌, none, codes, ◌≡◌, refl}
use doltdb_operator.Effect.{ok, err, not_found, message, ◌>>=◌, attempt}
use doltdb_operator.Rbac.{
  Owner, ObjectMeta, State, Env, service_account_key, auth_delegator_key, auth_delegator, metadata,
  binding_of, call, reconcile_service_account, reconcile_dolt_rbac,
}
use doltdb_operator.Rbac.Delegated.{IsBound, reconcile_dolt_rbac-IsBound}

abbrev owner : Owner
owner = record {
  name = codes "db";
  namespace = codes "ns";
  uid = codes "1f-2e";
  labels = [];
  annotations = [];
  service_account_name = none;
  service_account_annotations = (codes "role", codes "backup") ∷ [];
}

abbrev empty_server : Env
empty_server = record {
  volume_snapshot_group = codes "snapshot.storage.k8s.io";
  set_controller_reference = λ m. ok tt;
  get_account = λ t key. err not_found;
  create_account = λ t m. ok tt;
  patch_account = λ t m. ok tt;
  get_role = λ t key. err not_found;
  create_role = λ t r. ok tt;
  get_binding = λ t key. err not_found;
  create_binding = λ t b. ok tt;
  get_cluster_binding = λ t key. err not_found;
  create_cluster_binding = λ t b. ok tt;
}

abbrev start : State
start = record { trace = [] }

all_created : (reconcile_dolt_rbac empty_server owner start).0 ≡ ok tt
unfolding reconcile_dolt_rbac attempt ◌>>=◌
all_created = refl

-- The binding of another DoltDB has the name.
abbrev foreign_binding : Env
unfolding call
foreign_binding = record empty_server {
  get_cluster_binding = λ t key.
      ok (binding_of key (record owner { uid = codes "77" }) (metadata key owner) auth_delegator);
}

foreign_binding_fails :
    (reconcile_dolt_rbac foreign_binding owner start).0
    ≡ err (message "error reconciling system:auth-delegator ClusterRoleBinding: %v")
unfolding reconcile_dolt_rbac attempt ◌>>=◌
foreign_binding_fails = refl

reconcile_dolt_rbac-IsBound_example :
    (account : ObjectMeta) × ((reconcile_service_account empty_server owner
        (service_account_key owner)
        start).0
      ≡ ok account)
    × IsBound empty_server owner
        (auth_delegator_key owner)
        account
        auth_delegator
        (reconcile_dolt_rbac empty_server owner start).1.trace
reconcile_dolt_rbac-IsBound_example =
    reconcile_dolt_rbac-IsBound empty_server owner start all_created
