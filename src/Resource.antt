-- ===== src/Resource.antt =====
-- pkg/controller/database/database.go: what the reconcilers of databases, users and grants share, and
-- the calls that they make. pkg/dolt/sql/sql.go: a statement without an answer.
pub mod Statements
pub mod Client
pub mod Vcs
pub mod Reconcile
pub mod Kinds
pub mod Cleanup
pub mod Outcome
pub mod Unprotected
pub mod Quoting
use doltdb_operator.Prelude.{ℕ, Bool, true, false, List, ◌∷◌, Option, Bytes, ◌≡◌, ◌≢◌}
use doltdb_operator.Effect.{Result, ok, err, Op, gets, modify}
use doltdb_operator.Api.Condition.{Condition, Meta}
use doltdb_operator.Api.DoltDb.{DoltDb}
use doltdb_operator.Cluster as Cluster

pub data CleanupPolicy : Type 0 where
  skip delete : CleanupPolicy

-- `Resource`: what the shared reconcilers read of a Database, User or Grant. The namespace of the
-- reference is empty where the spec leaves it out; intervals are in seconds.
pub record Resource : Type 0 where
  pub name : Bytes
  pub namespace : Bytes
  pub doltdb_name : Bytes
  pub doltdb_namespace : Bytes
  pub is_being_deleted : Bool
  pub requeue_interval : Option ℕ
  pub retry_interval : Option ℕ
  pub cleanup_policy : Option CleanupPolicy

-- The part of the object that is patched.
pub record Object : Type 0 where
  pub finalizers : List Bytes
  pub conditions : List Condition

-- What the client connects to.
pub record Dsn : Type 0 where
  pub username : Bytes
  pub password : Bytes
  pub host : Bytes
  pub port : ℕ

pub data Event : Type 0 where
  got_object resolved : Event
  got_secret : Bytes → Event
  opened : Dsn → Event
  executed : Bytes → Event
  counted_user : Bytes → Bytes → Event
  counted_branch created_branch : Bytes → Event
  began committed rolled_back : Event
  counted_pattern inserted_pattern : Bytes → Event
  looked_for_user : Event
  patched_status : List Condition → Event
  patched_finalizers : List Bytes → Event

abbrev pub Trace : Type 0
Trace = List Event

-- The object in the memory of the controller and on the server, the state of the calls that the
-- health of a DoltDB takes, and the other calls, the latest first.
pub record State : Type 0 where
  pub object : Object
  pub stored : Object
  pub cluster : Cluster.State
  pub trace : Trace

-- `controllerutil` of controller-runtime, by its documented behaviour.
pub record ControllerUtil : Type 0 where
  pub add_finalizer : List Bytes → Bytes → List Bytes
  pub remove_finalizer : List Bytes → Bytes → List Bytes
  pub contains_finalizer : List Bytes → Bytes → Bool
  pub contains-add :
      (fs : List Bytes) (f : Bytes) → contains_finalizer (add_finalizer fs f) f ≡ true
  pub contains-remove :
      (fs : List Bytes) (f : Bytes) → contains_finalizer (remove_finalizer fs f) f ≡ false

-- Calls of the Kubernetes API and of the SQL server, answered by any functions of the calls so far.
pub record Env : Type 0 where
  pub meta : Meta
  pub util : ControllerUtil
  pub cluster : Cluster.Env
  pub get_object : Trace → Result Object
  -- By namespace and name.
  pub get_doltdb : Trace → Bytes → Bytes → Result DoltDb
  pub get_secret : Trace → Bytes → Bytes → Result (List (Bytes × Bytes))
  pub open_db : Trace → Dsn → Result (Unit {0})
  pub exec : Trace → Bytes → Result (Unit {0})
  pub count_user : Trace → Bytes → Bytes → Result ℕ
  pub count_branch : Trace → Bytes → Result ℕ
  pub create_branch : Trace → Bytes → Result (Unit {0})
  pub begin_tx : Trace → Result (Unit {0})
  pub count_pattern : Trace → Bytes → Result ℕ
  pub insert_pattern : Trace → Bytes → Result (Unit {0})
  pub commit : Trace → Result (Unit {0})
  pub rollback : Trace → Result (Unit {0})
  pub get_user : Trace → Bytes → Bytes → Result (Unit {0})
  -- How often the poll for a User runs before its timeout.
  pub poll_rounds : Trace → ℕ
  pub patch_status : Trace → Result (Unit {0})
  pub patch_object : Trace → Result (Unit {0})

unfoldable pub call : {A : Type 0} → Event → (Trace → Result A) → Op State A
call e answer s = let t = e ∷ s.trace in (answer t, record s { trace = t })

-- A call of the health checks.
unfoldable pub on_cluster : {A : Type 0} → Op Cluster.State A → Op State A
on_cluster m s = let (r, c) = m s.cluster in (r, record s { cluster = c })

-- The server's answer replaces the object in memory; where it refuses, the change in memory stays.
abbrev pub patch_answer :
    Result (Unit {0}) → Event → Object → Object → State → Result (Unit {0}) × State
patch_answer (ok a) e changed accepted s =
    (ok tt, record s { object = accepted; stored = accepted; trace = e ∷ s.trace })
patch_answer (err x) e changed accepted s =
    (err x, record s { object = changed; trace = e ∷ s.trace })

module _ (env : Env) where
  -- `Client.Exec` without arguments.
  unfoldable pub exec : Bytes → Op State (Unit {0})
  unfolding call
  exec statement = call (executed statement) (λ t. env.exec t statement)

  -- `Status().Patch` after a change of the conditions.
  unfoldable pub patch_conditions : (List Condition → List Condition) → Op State (Unit {0})
  patch_conditions patcher s =
      let changed = record s.object { conditions = patcher s.object.conditions } in
      let e = patched_status changed.conditions in
      patch_answer (env.patch_status (e ∷ s.trace)) e changed
        (record s.stored { conditions = changed.conditions }) s

  -- `Patch` after a change of the finalizers.
  unfoldable pub patch_finalizers : (List Bytes → List Bytes) → Op State (Unit {0})
  patch_finalizers f s =
      let changed = record s.object { finalizers = f s.object.finalizers } in
      let e = patched_finalizers changed.finalizers in
      patch_answer (env.patch_object (e ∷ s.trace)) e changed
        (record s.stored { finalizers = changed.finalizers }) s

-- `WrappedReconciler` and `WrappedFinalizer`.
pub record Wrapped : Type 0 where
  pub reconcile : Op State (Unit {0})
  pub patch_status : (List Condition → List Condition) → Op State (Unit {0})
  pub contains_finalizer : State → Bool
  pub add_finalizer : Op State (Unit {0})
  pub remove_finalizer : Op State (Unit {0})
  pub clean_up : Op State (Unit {0})
