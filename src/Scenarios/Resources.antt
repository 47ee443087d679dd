-- ===== src/Scenarios/Resources.antt =====
-- The theorems on databases, users and grants at a concrete cluster.
use doltdb_operator.Prelude.{
  true, false, List, [], ◌∷◌, none, some, Bytes, codes, keep, not, any, str_eq, ◌≡◌, ◌⊎◌, refl,
  str_eq_refl, arith, sym, ap, ◌∙◌, all,
}
use doltdb_operator.Effect.{
  Error, message, conflict, is_not_found, again, Result, ok, err, attempt, ◌>>=◌,
}
use doltdb_operator.Dolt.{standby}
use doltdb_operator.Cluster as Cluster
use doltdb_operator.Resource.{Resource, skip, Object, State, Env, ControllerUtil}
use doltdb_operator.Resource.Statements.{
  DatabaseOpts, is_identifier_char, sanitize_identifier, drop_database_statement,
  use_database_statement, create_database_statement,
}
use doltdb_operator.Resource.Client.{resolve_doltdb, new_client_with_doltdb}
use doltdb_operator.Resource.Reconcile.{Options, wait_for_doltdb, finalize, reconcile_resource}
use doltdb_operator.Resource.Kinds.Database.{
  DatabaseSpec, database_kind, database_finalizer, reconcile_database_in_sql, clean_up_database,
}
use doltdb_operator.Resource.Outcome.{Reaches, IsDone, success_is_protected}
use doltdb_operator.Resource.Unprotected.{refused_finalizer_leaves_unprotected}
use doltdb_operator.Resource.Quoting.{IsQuotedOnce, sanitized_names_stay_quoted}
use doltdb_operator.Health.{is_stateful_set_healthy}
use doltdb_operator.Naming.{service_fqdn_with_service}
use doltdb_operator.Resource.Kinds.Dropped.{IsDropped, release_needs_drop}
use doltdb_operator.Scenarios.{list_meta, cluster, desired_at, state}

pub added_there : (fs : List Bytes) (f : Bytes) → any (λ g. str_eq g f) (f ∷ fs) ≡ true
added_there fs f = rw (str_eq_refl f) refl

pub removed_there :
    (fs : List Bytes) (f : Bytes) → any (λ g. str_eq g f) (keep (λ g. not (str_eq g f)) fs) ≡ false
removed_there [] f = refl
removed_there (g ∷ fs) f = ground (arith, removed_there fs f)

-- Finalizers as a list, the latest first.
abbrev pub finalizer_list : ControllerUtil
finalizer_list = record {
  add_finalizer = λ fs f. f ∷ fs;
  remove_finalizer = λ fs f. keep (λ g. not (str_eq g f)) fs;
  contains_finalizer = λ fs f. any (λ g. str_eq g f) fs;
  contains-add = added_there;
  contains-remove = removed_there;
}

-- The endpoints of the two Pods are ready.
abbrev pub ready_cluster : Cluster.Env
ready_cluster = record (cluster standby) {
  list_endpoint_slices =
      λ t. ok (record { ports = some 3306 ∷ []; endpoints = some true ∷ some true ∷ [] } ∷ []);
}

abbrev pub credentials : List (Bytes × Bytes)
credentials = (codes "admin-user", codes "root") ∷ (codes "admin-password", codes "pw") ∷ []

-- Every call succeeds; no account and no branch is there yet, and each pattern is new.
abbrev pub answering : Env
answering = record {
  meta = list_meta;
  util = finalizer_list;
  cluster = ready_cluster;
  get_object = λ t. ok (record { finalizers = []; conditions = [] });
  get_doltdb = λ t namespace name. ok (desired_at 0 []);
  get_secret = λ t namespace name. ok credentials;
  open_db = λ t dsn. ok tt;
  exec = λ t statement. ok tt;
  count_user = λ t username host. ok 0;
  count_branch = λ t branch. ok 0;
  create_branch = λ t branch. ok tt;
  begin_tx = λ t. ok tt;
  count_pattern = λ t pattern. ok 0;
  insert_pattern = λ t pattern. ok tt;
  commit = λ t. ok tt;
  rollback = λ t. ok tt;
  get_user = λ t namespace name. ok tt;
  poll_rounds = λ t. 2;
  patch_status = λ t. ok tt;
  patch_object = λ t. ok tt;
}

abbrev options : Options
options = record { requeue_interval = 30; cluster_name = [] }

abbrev resource : Resource
resource = record {
  name = codes "app";
  namespace = codes "ns";
  doltdb_name = codes "db";
  doltdb_namespace = [];
  is_being_deleted = false;
  requeue_interval = none;
  retry_interval = some 5;
  cleanup_policy = none;
}

abbrev app : DatabaseSpec
app = record {
  name = some (codes "app");
  opts = record { char_set = []; collation = [] };
  system_branches = codes "dev" ∷ [];
  dolt_ignore_patterns = codes "tmp_*" ∷ codes "log" ∷ [];
}

-- A fresh object, and one with the finalizer.
abbrev pub object_with : List Bytes → Object
object_with finalizers = record { finalizers = finalizers; conditions = [] }

abbrev pub fresh : State
fresh = record {
  object = object_with [];
  stored = object_with [];
  cluster = state (desired_at 0 []);
  trace = [];
}

abbrev protected : State
protected = record fresh {
  object = object_with (database_finalizer ∷ []);
  stored = object_with (database_finalizer ∷ []);
}

release_needs_drop_example :
    let x = finalize answering options (database_kind answering app) resource protected in
    (x.1.stored.finalizers ≡ database_finalizer ∷ [])
    ⊎ ((e : Error) × ((resolve_doltdb answering resource protected).0 ≡ err e)
        × (is_not_found e ≡ true))
    ⊎ (resource.cleanup_policy ≡ some skip)
    ⊎ IsDropped answering app x.1.trace
release_needs_drop_example = release_needs_drop answering options app resource protected

-- The answers to a statement and to a patch of the finalizers.
abbrev answering_with : Result (Unit {0}) → Result (Unit {0}) → Env
answering_with on_exec on_patch = record answering {
  exec = λ t statement. on_exec;
  patch_object = λ t. on_patch;
}

connected : State
connected =
    (new_client_with_doltdb answering [] (desired_at 0 [])
      (wait_for_doltdb answering (desired_at 0 []) (resolve_doltdb answering resource fresh).1).1).1

reaches :
    (on_exec on_patch : Result (Unit {0}))
    → let env = answering_with on_exec on_patch in
      Reaches env options (database_kind env app) resource fresh connected
unfolding connected resolve_doltdb wait_for_doltdb new_client_with_doltdb ◌>>=◌ attempt str_eq
    Cluster.set_doltdb is_stateful_set_healthy service_fqdn_with_service
reaches on_exec on_patch = record {
  alive = refl;
  doltdb = desired_at 0 [];
  on_resolve = (resolve_doltdb answering resource fresh).1;
  on_wait =
      (wait_for_doltdb answering (desired_at 0 []) (resolve_doltdb answering resource fresh).1).1;
  resolved = refl;
  waited = refl;
  connected = refl;
}

-- After the statements.
made : State
made = (reconcile_database_in_sql answering app connected).1

all_made :
    (on_patch : Result (Unit {0}))
    → reconcile_database_in_sql (answering_with (ok tt) on_patch) app connected ≡ (ok tt, made)
unfolding made reconcile_database_in_sql ◌>>=◌ attempt connected
all_made on_patch = refl

same_object : (made.object ≡ object_with []) × (made.stored ≡ object_with [])
unfolding made connected reconcile_database_in_sql resolve_doltdb wait_for_doltdb
    new_client_with_doltdb ◌>>=◌ attempt str_eq Cluster.set_doltdb is_stateful_set_healthy
    service_fqdn_with_service
same_object = (refl, refl)

success_is_protected_example :
    IsDone answering database_finalizer "error patching Database status: %v"
      "error patching Database finalizer: %v" options
      (reconcile_database_in_sql answering app)
      (clean_up_database answering app)
      resource
      (reconcile_resource answering options (database_kind answering app) resource fresh)
success_is_protected_example =
    success_is_protected answering database_finalizer "error patching Database status: %v"
      "error patching Database finalizer: %v" options (reconcile_database_in_sql answering app)
      (clean_up_database answering app) resource fresh connected made (reaches (ok tt) (ok tt))
      (all_made (ok tt)) (same_object.0 ∙ sym same_object.1) (λ t. refl) (λ t. refl)

abbrev failing : Env
failing = answering_with (err conflict) (ok tt)

exec_fails : reconcile_database_in_sql failing app connected ≡ (
  err (message "error creating database in DoltDB: %v"),
  (reconcile_database_in_sql failing app connected).1,
)
unfolding reconcile_database_in_sql ◌>>=◌ attempt connected
exec_fails = refl

abbrev refusing : Env
refusing = answering_with (ok tt) (err conflict)

refused_finalizer_leaves_unprotected_example :
    let y = reconcile_resource refusing options (database_kind refusing app) resource fresh in
    (y.0 ≡ ok again) × (y.1.stored.finalizers ≡ made.stored.finalizers)
refused_finalizer_leaves_unprotected_example =
    refused_finalizer_leaves_unprotected refusing database_finalizer
      "error patching Database status: %v" "error patching Database finalizer: %v" options
      (reconcile_database_in_sql refusing app) (clean_up_database refusing app) resource fresh
      connected made conflict (reaches (ok tt) (err conflict)) (all_made (err conflict))
      (ap (λ (x : Object). finalizer_list.contains_finalizer x.finalizers database_finalizer)
        same_object.0)
      (λ t. refl)

cleaned_name : sanitize_identifier (codes "my`db") ≡ ok (codes "mydb")
unfolding sanitize_identifier
cleaned_name = refl

-- The defaults of the custom resource.
abbrev default_opts : DatabaseOpts
default_opts = record { char_set = codes "utf8mb4"; collation = codes "utf8mb4_0900_bin" }

sanitized_names_stay_quoted_example :
    (all is_identifier_char (codes "mydb") ≡ true)
    × IsQuotedOnce (drop_database_statement (codes "mydb"))
    × IsQuotedOnce (use_database_statement (codes "mydb"))
    × IsQuotedOnce (create_database_statement (codes "mydb") default_opts)
sanitized_names_stay_quoted_example =
    sanitized_names_stay_quoted (codes "my`db") (codes "mydb") cleaned_name default_opts
      (refl, refl) (refl, refl)
