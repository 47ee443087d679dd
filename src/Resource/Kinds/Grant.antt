-- ===== src/Resource/Kinds/Grant.antt =====
-- internal/controller/grant_controller.go, with the statements of pkg/dolt/sql/grant.go.
use doltdb_operator.Prelude.{
  ℕ, zero, suc, Bool, List, [], Option, Bytes, codes, deref, if◌then◌else◌,
}
use doltdb_operator.Effect.{
  Error, message, is_not_found, Requeue, Op, pure, fail, gets, ◌>>=◌, attempt, wrap,
}
use doltdb_operator.Resource.{Resource, looked_for_user, State, Env, Wrapped, call, exec}
use doltdb_operator.Resource.Statements.{Privilege, account_name, grant_statement, revoke_statement}
use doltdb_operator.Resource.Reconcile.{Options, reconcile_resource}
use doltdb_operator.Resource.Kinds.{
  patch_status_of, contains, add_finalizer_of, remove_finalizer_of, reconcile_found,
}

-- The namespace is that of the Grant.
pub record GrantSpec : Type 0 where
  pub namespace : Bytes
  pub privileges : List Bytes
  pub database : Bytes
  pub table : Bytes
  pub username : Bytes
  pub host : Option Bytes
  pub grant_option : Bool

abbrev pub grant_finalizer : Bytes
grant_finalizer = codes "grant.k8s.dolthub.com/finalizer"

-- `Grant.AccountName`.
abbrev pub grant_account : GrantSpec → Bytes
grant_account g = account_name g.username (deref g.host [])

abbrev pub privilege_of : GrantSpec → Privilege
privilege_of g = record {
  privileges = g.privileges;
  database = g.database;
  table = g.table;
  account = grant_account g;
  grant_option = g.grant_option;
}

-- How the poll for a User ends.
pub data Polled : Type 0 where
  user_gone interrupted : Polled
  poll_failed : Error → Polled

module _ (env : Env) where
  -- `wrappedGrantReconciler.Reconcile`.
  unfoldable pub reconcile_grant_in_sql : GrantSpec → Op State (Unit {0})
  unfolding exec grant_statement
  reconcile_grant_in_sql g =
      wrap "error granting privileges in DoltDB: %v" (exec env (grant_statement (privilege_of g)))

  -- The poll: a User that is there is looked for again, until the rounds are over.
  unfoldable pub poll_user : GrantSpec → ℕ → Op State Polled
  unfolding call
  poll_user g zero = pure interrupted
  poll_user g (suc rounds) =
      let again_later = poll_user g rounds in
      attempt (call looked_for_user (λ t. env.get_user t g.namespace g.username)) (λ _. again_later)
        (λ e. pure (if is_not_found e then user_gone else poll_failed e))

  abbrev pub revoke_unless_gone : GrantSpec → Polled → Op State (Unit {0})
  revoke_unless_gone g user_gone = pure tt
  revoke_unless_gone g (poll_failed e) =
      fail (message "error checking if user exists in DoltDB: %v")
  revoke_unless_gone g interrupted =
      wrap "error revoking grant in DoltDB: %v" (exec env (revoke_statement (privilege_of g)))

  -- `wrappedGrantFinalizer.Reconcile`.
  unfoldable pub clean_up_grant : GrantSpec → Op State (Unit {0})
  unfolding exec revoke_statement poll_user
  clean_up_grant g =
      gets (λ s. env.poll_rounds s.trace) >>= λ rounds. poll_user g rounds >>= revoke_unless_gone g

  abbrev pub grant_kind : GrantSpec → Wrapped
  grant_kind g = record {
    reconcile = reconcile_grant_in_sql g;
    patch_status = patch_status_of env "error patching Grant status: %v";
    contains_finalizer = contains env grant_finalizer;
    add_finalizer = add_finalizer_of env grant_finalizer "error patching Grant: %v";
    remove_finalizer = remove_finalizer_of env grant_finalizer "error patching Grant: %v";
    clean_up = clean_up_grant g;
  }

  -- `GrantReconciler.Reconcile`.
  unfoldable pub reconcile_grant : Options → Resource → GrantSpec → Op State Requeue
  unfolding reconcile_found reconcile_resource
  reconcile_grant o r g =
      reconcile_found env "error reconciling GrantController: %v"
        (reconcile_resource env o (grant_kind g) r)
