-- ===== src/Sql/Roles.antt =====
-- What the queries of a server change of the roles.
use doltdb_operator.Prelude.{ℕ, List, ◌∷◌}
use doltdb_operator.Effect.Keeps.{Keeps-lift}
use doltdb_operator.Effect.Ends.{Ends, Ends-then}
use doltdb_operator.Dolt.{Role}
use doltdb_operator.Cluster.{Env}
use doltdb_operator.Cluster.Roles.{Roles, call_assume-Ends}
use doltdb_operator.Sql.{assume_role}

module _ {changes : List (ℕ × Role × ℕ)} (env : Env) where
  pub assume_role-Ends :
      (i : ℕ) (r : Role) (e : ℕ)
      → Ends (Roles changes) (Roles ((i, r, e) ∷ changes)) (assume_role env i r e)
  unfolding assume_role
  assume_role-Ends i r e =
      Ends-then _ _ (call_assume-Ends i r e (λ t. env.call_assume_role t i r e))
        (λ row. Keeps-lift _)
