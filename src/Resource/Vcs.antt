-- ===== src/Resource/Vcs.antt =====
-- pkg/dolt/sql/vcs.go and `CreateBranches` of database.go: branches, and the table dolt_ignore.
use doltdb_operator.Prelude.{
  ℕ, List, [], ◌∷◌, Option, none, some, Bytes, ltb, ◌==◌, is_some, if◌then◌else◌,
}
use doltdb_operator.Effect.{
  Error, message, Result, ok, err, Op, pure, fail, lift, ◌>>=◌, ◌>>◌, attempt, wrap,
}
use doltdb_operator.Resource.Reconcile.{tried}
use doltdb_operator.Resource.{
  counted_branch, created_branch, began, committed, rolled_back, counted_pattern, inserted_pattern,
  State, Env, call,
}

-- `ErrBranchExists`.
abbrev pub branch_exists : Error
branch_exists = message "branch already exists"

-- `CreateDoltIgnore` has two variables `err`: that of the function, which `BeginTx` assigns, and one
-- that each `if err := …` and `if _, err := …` of the loop declares anew and that hides the first.
pub record ErrVars : Type 0 where
  pub of_function : Option Error
  pub of_statement : Option Error

abbrev pub error_of : {A : Type 0} → Result A → Option Error
error_of (ok a) = none
error_of (err e) = some e

-- What the loop returns with was assigned to the variable of its statement.
abbrev pub assign_inner : Result (Unit {0}) → ErrVars → ErrVars
assign_inner r vars = record vars { of_statement = error_of r }

module _ (env : Env) where
  -- `createBranch`.
  unfoldable pub create_branch : Bytes → Op State (Unit {0})
  unfolding call
  create_branch branch = do
    count ← call (counted_branch branch) (λ t. env.count_branch t branch)
    if ltb 0 count
        then fail branch_exists
        else call (created_branch branch) (λ t. env.create_branch t branch)

  -- `CreateBranches`: after an error of any kind the loop goes on.
  unfoldable pub create_branches : List Bytes → Op State (Unit {0})
  unfolding create_branch
  create_branches [] = pure tt
  create_branches (b ∷ bs) =
      let rest = create_branches bs in attempt (create_branch b) (λ _. rest) (λ e. rest)

  -- One pattern, in the transaction.
  abbrev pub insert_unless : Bytes → ℕ → Op State (Unit {0})
  insert_unless pattern count =
      if count == 0
      then wrap "error inserting pattern '%s': %w"
          (call (inserted_pattern pattern) (λ t. env.insert_pattern t pattern))
      else pure tt

  unfoldable pub ignore_pattern : Bytes → Op State (Unit {0})
  unfolding call
  ignore_pattern pattern =
      wrap "error checking if pattern '%s' exists: %w"
        (call (counted_pattern pattern) (λ t. env.count_pattern t pattern))
      >>= insert_unless pattern

  unfoldable pub ignore_patterns : List Bytes → Op State (Unit {0})
  unfolding ignore_pattern
  ignore_patterns [] = pure tt
  ignore_patterns (p ∷ ps) = ignore_pattern p >> ignore_patterns ps

  -- The deferred function, by the variable `err` that it sees; its errors are logged or lost.
  unfoldable pub end_transaction : Option Error → Op State (Unit {0})
  unfolding call
  end_transaction (some e) = attempt (call rolled_back env.rollback) (λ _. pure tt) (λ e. pure tt)
  end_transaction none = attempt (call committed env.commit) (λ _. pure tt) (λ e. pure tt)

  -- The deferred function reads the variable of the function; the result that was returned stands,
  -- whatever it does.
  abbrev after_loop : ErrVars → Result (Unit {0}) → Op State (Unit {0})
  after_loop vars looped = end_transaction (assign_inner looped vars).of_function >> lift looped

  abbrev in_transaction : ErrVars → List Bytes → Op State (Unit {0})
  in_transaction vars patterns =
      if is_some vars.of_function
      then fail (message "error beginning transaction to create dolt ignore: %w")
      else tried (ignore_patterns patterns) (after_loop vars)

  -- `CreateDoltIgnore`.
  unfoldable pub create_dolt_ignore : List Bytes → Op State (Unit {0})
  unfolding ignore_patterns end_transaction call
  create_dolt_ignore patterns =
      tried (call began env.begin_tx)
        (λ r. in_transaction (record { of_function = error_of r; of_statement = none }) patterns)
