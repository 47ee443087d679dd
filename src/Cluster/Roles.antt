-- ===== src/Cluster/Roles.antt =====
-- What a trace shows of roles: operations that ask no server to assume a role, and those that do.
use doltdb_operator.Prelude.{ℕ, Bool, true, false, List, [], ◌∷◌, Option, ◌≡◌, refl, ◌∙◌, ap}
use doltdb_operator.Effect.{Result}
use doltdb_operator.Effect.Keeps.{Keeps, keeps_rules}
use doltdb_operator.Effect.Ends.{Ends}
use doltdb_operator.Dolt.{Role}
use doltdb_operator.Cluster.{Event, State, Trace, call, assumed_role}
use doltdb_operator.Cluster.Traces.{assumed_roles}

abbrev pub promotes : Event → Bool
promotes (assumed_role i r e) = true
promotes _ = false

pub assumed_roles-quiet :
    (e : Event) (t : Trace) → promotes e ≡ false → assumed_roles (e ∷ t) ≡ assumed_roles t
assumed_roles-quiet (assumed_role i r e) t h = cc
assumed_roles-quiet _ t h = refl

-- The roles asked for so far are `changes`.
abbrev pub Roles : List (ℕ × Role × ℕ) → State → Type 0
Roles changes s = assumed_roles s.trace ≡ changes

module _ {changes : List (ℕ × Role × ℕ)} where
  pub Keeps-call :
      {A : Type 0} (e : Event) (answer : Trace → Result A)
      → promotes e ≡ false
      → Keeps (Roles changes) (call e answer)
  unfolding call
  Keeps-call e answer h = record { at = λ s q. assumed_roles-quiet e s.trace h ∙ q }

pub ruleset roles_rules = (keeps_rules, Keeps-call, refl)

module _ {changes : List (ℕ × Role × ℕ)} where
  pub call_assume-Ends :
      (i : ℕ) (r : Role) (e : ℕ) (answer : Trace → Result (Option ℕ))
      → Ends (Roles changes) (Roles ((i, r, e) ∷ changes)) (call (assumed_role i r e) answer)
  unfolding call
  call_assume-Ends i r e answer = record { at = λ s q. ap (λ l. (i, r, e) ∷ l) q }
