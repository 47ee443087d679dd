-- ===== src/Resource/Client.antt =====
-- pkg/dolt/sql/sql.go and pkg/refresolver/refresolver.go: the client of the SQL server of a DoltDB.
use doltdb_operator.Prelude.{
  List, [], ◌∷◌, ◌++◌, Option, none, some, Bytes, codes, ◌==◌, ◌||◌, is_empty, str_eq,
  if◌then◌else◌,
}
use doltdb_operator.Effect.{message, Result, ok, err, Op, lift, ◌>>=◌, wrap}
use doltdb_operator.Api.DoltDb.{DoltDb, replication_enabled, primary_service_name}
use doltdb_operator.Naming.{service_fqdn_with_service}
use doltdb_operator.Resource.{Resource, Dsn, resolved, got_secret, opened, State, Env, call}

-- The value of a key of a Secret.
unfoldable pub find_key : Bytes → List (Bytes × Bytes) → Option Bytes
find_key key [] = none
find_key key ((k, v) ∷ rest) = if str_eq k key then some v else find_key key rest

abbrev found_key : Option Bytes → Result Bytes
found_key none = err (message "secret key \"%s\" not found")
found_key (some v) = ok v

-- `RootPasswordSecretKeyRef` and `RootUserSecretKeyRef`: one Secret, two keys.
abbrev pub credentials_name : DoltDb → Bytes
credentials_name d = d.name ++ codes "-credentials"

-- The Service that `NewClientWithDoltDB` connects to: `PrimaryServiceKey` or `ServiceKey`.
unfoldable pub service_for_sql : DoltDb → Bytes
service_for_sql d = if replication_enabled d then primary_service_name d else d.name

-- `BuildDSN`: without both credentials the configuration has neither.
unfoldable pub build_dsn : Dsn → Result Dsn
build_dsn opts =
    if is_empty opts.host || opts.port == 0
    then err (message "invalid opts: host and port are mandatory")
    else if is_empty opts.username || is_empty opts.password
    then ok (record opts { username = []; password = [] })
    else ok opts

module _ (env : Env) where
  -- `RefResolver.DoltDB`.
  unfoldable pub resolve_doltdb : Resource → Op State DoltDb
  unfolding call
  resolve_doltdb r =
      let namespace = if is_empty r.doltdb_namespace then r.namespace else r.doltdb_namespace in
      call resolved (λ t. env.get_doltdb t namespace r.doltdb_name)

  -- `RefResolver.SecretKeyRef`.
  unfoldable pub secret_key_ref : Bytes → Bytes → Bytes → Op State Bytes
  unfolding find_key call
  secret_key_ref namespace name key =
      wrap "error getting Secret: %v"
        (call (got_secret name) (λ t. env.get_secret t namespace name))
      >>= λ entries. lift (found_key (find_key key entries))

  -- `NewClient`.
  unfoldable pub new_client : Dsn → Op State (Unit {0})
  unfolding build_dsn call
  new_client opts = wrap "error building DSN: %v" (lift (build_dsn opts)) >>= λ dsn.
      call (opened dsn) (λ t. env.open_db t dsn)

  -- `NewClientWithDoltDB` without further options; the operator's `CLUSTER_NAME` is an argument.
  unfoldable pub new_client_with_doltdb : Bytes → DoltDb → Op State (Unit {0})
  unfolding secret_key_ref new_client service_for_sql
  new_client_with_doltdb cluster d = do
    password ←
        wrap "error reading root password secret: %v"
          (secret_key_ref d.namespace (credentials_name d) (codes "admin-password"))
    username ←
        wrap "error reading root username secret: %v"
          (secret_key_ref d.namespace (credentials_name d) (codes "admin-user"))
    new_client (record {
      username = username;
      password = password;
      host = service_fqdn_with_service cluster d.namespace (service_for_sql d);
      port = d.spec.listener_port;
    })
