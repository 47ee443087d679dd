-- ===== src/Resource/Kinds/User.antt =====
-- internal/controller/user_controller.go, with the statements of pkg/dolt/sql/user.go.
use doltdb_operator.Prelude.{
  Bool, false, [], Option, none, some, Bytes, codes, ltb, is_empty, not, if◌then◌else◌,
}
use doltdb_operator.Effect.{Requeue, Op, pure, lift, ◌>>=◌, attempt, wrap}
use doltdb_operator.Resource.{Resource, counted_user, State, Env, Wrapped, call, exec}
use doltdb_operator.Resource.Statements.{
  CreateUserOpts, account_name, create_user_statement, drop_user_statement, alter_user_statement,
}
use doltdb_operator.Resource.Client.{secret_key_ref}
use doltdb_operator.Resource.Reconcile.{Options, reconcile_resource}
use doltdb_operator.Resource.Kinds.{
  patch_status_of, contains, add_finalizer_of, remove_finalizer_of, reconcile_found,
}

-- A reference to a Secret: its name and a key.
pub record SecretKeySelector : Type 0 where
  pub name : Bytes
  pub key : Bytes

-- The namespace is that of the User.
pub record UserSpec : Type 0 where
  pub namespace : Bytes
  pub name : Bytes
  pub host : Bytes
  pub password_secret_key_ref : Option SecretKeySelector

abbrev pub user_finalizer : Bytes
user_finalizer = codes "user.k8s.dolthub.com/finalizer"

-- `HostnameOrDefault`.
abbrev pub hostname_or_default : UserSpec → Bytes
hostname_or_default u = if is_empty u.host then codes "%" else u.host

abbrev pub user_account : UserSpec → Bytes
user_account u = account_name u.name u.host

abbrev pub identified_by : Bytes → CreateUserOpts
identified_by password = record { identified_by_password = []; identified_by = password }

module _ (env : Env) where
  -- `UserExists`.
  unfoldable pub user_exists : Bytes → Bytes → Op State Bool
  unfolding call
  user_exists username host =
      call (counted_user username host) (λ t. env.count_user t username host) >>= λ count.
      pure (ltb 0 count)

  -- `CreateUser`, `AlterUser` and `DropUser`.
  unfoldable pub create_user : Bytes → CreateUserOpts → Op State (Unit {0})
  unfolding exec create_user_statement
  create_user account opts =
      lift (create_user_statement account opts) >>= λ statement. exec env statement

  unfoldable pub alter_user : Bytes → CreateUserOpts → Op State (Unit {0})
  unfolding exec alter_user_statement
  alter_user account opts = exec env (alter_user_statement account opts)

  unfoldable pub drop_user : Bytes → Op State (Unit {0})
  unfolding exec drop_user_statement
  drop_user account = exec env (drop_user_statement account)

  -- The password, empty where the spec names none.
  abbrev pub read_password : UserSpec → Option SecretKeySelector → Op State Bytes
  read_password u none = pure []
  read_password u (some ref) =
      wrap "error reading user password secret: %v"
        (secret_key_ref env u.namespace ref.name ref.key)

  abbrev pub create_or_alter : UserSpec → Bytes → Bool → Op State (Unit {0})
  create_or_alter u password exists =
      if not exists
      then wrap "error creating User: %v" (create_user (user_account u) (identified_by password))
      else if not (is_empty password)
      then wrap "error altering User: %v" (alter_user (user_account u) (identified_by password))
      else pure tt

  -- `wrappedUserReconciler.Reconcile`. An error of the look-up counts as no user.
  unfoldable pub reconcile_user_in_sql : UserSpec → Op State (Unit {0})
  unfolding secret_key_ref user_exists create_user alter_user
  reconcile_user_in_sql u = read_password u u.password_secret_key_ref >>= λ password.
      attempt (user_exists u.name (hostname_or_default u)) (create_or_alter u password)
        (λ e. create_or_alter u password false)

  -- `wrappedUserFinalizer.Reconcile`.
  unfoldable pub clean_up_user : UserSpec → Op State (Unit {0})
  unfolding drop_user
  clean_up_user u = wrap "error dropping user in DoltDB: %v" (drop_user (user_account u))

  abbrev pub user_kind : UserSpec → Wrapped
  user_kind u = record {
    reconcile = reconcile_user_in_sql u;
    patch_status = patch_status_of env "error patching User status: %v";
    contains_finalizer = contains env user_finalizer;
    add_finalizer = add_finalizer_of env user_finalizer "error removing finalizer to User: %v";
    remove_finalizer =
        remove_finalizer_of env user_finalizer "error removing finalizer to User: %v";
    clean_up = clean_up_user u;
  }

  -- `UserReconciler.Reconcile`.
  unfoldable pub reconcile_user : Options → Resource → UserSpec → Op State Requeue
  unfolding reconcile_found reconcile_resource
  reconcile_user o r u =
      reconcile_found env "error reconciling in User Controller: %v"
        (reconcile_resource env o (user_kind u) r)
