-- ===== src/Resource/Kinds/Database.antt =====
-- internal/controller/database_controller.go, with the statements of pkg/dolt/sql/database.go.
use doltdb_operator.Prelude.{List, Option, none, some, Bytes, codes}
use doltdb_operator.Effect.{panic, Result, ok, err, Requeue, Op, lift, ◌>>=◌, ◌>>◌, wrap}
use doltdb_operator.Resource.{Resource, State, Env, Wrapped, exec}
use doltdb_operator.Resource.Statements.{
  DatabaseOpts, sanitize_identifier, create_database_statement, drop_database_statement,
  use_database_statement,
}
use doltdb_operator.Resource.Vcs.{create_branches, create_dolt_ignore}
use doltdb_operator.Resource.Reconcile.{Options, reconcile_resource}
use doltdb_operator.Resource.Kinds.{
  patch_status_of, contains, add_finalizer_of, remove_finalizer_of, reconcile_found,
}

pub record DatabaseSpec : Type 0 where
  pub name : Option Bytes
  pub opts : DatabaseOpts
  pub system_branches : List Bytes
  pub dolt_ignore_patterns : List Bytes

abbrev pub database_finalizer : Bytes
database_finalizer = codes "database.k8s.dolthub.com/finalizer"

-- `Database.Name`, which does not ask whether the name is there.
abbrev pub name_of : Option Bytes → Result Bytes
name_of none = err panic
name_of (some name) = ok name

module _ (env : Env) where
  -- `CreateDatabase`, `DropDatabase` and `UseDatabase`.
  unfoldable pub create_database : Bytes → DatabaseOpts → Op State (Unit {0})
  unfolding exec sanitize_identifier create_database_statement
  create_database name opts =
      lift (sanitize_identifier name) >>= λ safe. exec env (create_database_statement safe opts)

  unfoldable pub drop_database : Bytes → Op State (Unit {0})
  unfolding exec sanitize_identifier drop_database_statement
  drop_database name =
      lift (sanitize_identifier name) >>= λ safe. exec env (drop_database_statement safe)

  unfoldable pub use_database : Bytes → Op State (Unit {0})
  unfolding exec sanitize_identifier use_database_statement
  use_database name =
      lift (sanitize_identifier name) >>= λ safe. exec env (use_database_statement safe)

  -- `wrappedDatabaseReconciler.Reconcile`.
  unfoldable pub reconcile_database_in_sql : DatabaseSpec → Op State (Unit {0})
  unfolding create_database use_database create_dolt_ignore create_branches
  reconcile_database_in_sql spec = do
    name ← lift (name_of spec.name)
    wrap "error creating database in DoltDB: %v" (create_database name spec.opts)
    wrap "error calling use database in DoltDB: %v" (use_database name)
    wrap "error creating dolt_ignore in DoltDB: %v"
        (create_dolt_ignore env spec.dolt_ignore_patterns)
    wrap "error creating branches in DoltDB: %v" (create_branches env spec.system_branches)

  -- `wrappedDatabaseFinalizer.Reconcile`.
  unfoldable pub clean_up_database : DatabaseSpec → Op State (Unit {0})
  unfolding drop_database
  clean_up_database spec = lift (name_of spec.name) >>= λ name.
      wrap "error dropping database in DoltDB: %v" (drop_database name)

  abbrev pub database_kind : DatabaseSpec → Wrapped
  database_kind spec = record {
    reconcile = reconcile_database_in_sql spec;
    patch_status = patch_status_of env "error patching Database status: %v";
    contains_finalizer = contains env database_finalizer;
    add_finalizer = add_finalizer_of env database_finalizer "error patching Database finalizer: %v";
    remove_finalizer =
        remove_finalizer_of env database_finalizer "error patching Database finalizer: %v";
    clean_up = clean_up_database spec;
  }

  -- `DatabaseReconciler.Reconcile`.
  unfoldable pub reconcile_database : Options → Resource → DatabaseSpec → Op State Requeue
  unfolding reconcile_found reconcile_resource
  reconcile_database o r spec =
      reconcile_found env "error reconciling in TemplateReconciler: %v"
        (reconcile_resource env o (database_kind spec) r)
