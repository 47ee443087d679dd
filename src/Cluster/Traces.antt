-- ===== src/Cluster/Traces.antt =====
-- What a trace shows: the Pods that were deleted, and the servers that were asked to assume a role.
use doltdb_operator.Prelude.{ℕ, Bool, true, false, List, [], ◌∷◌, Bytes, ◌≡◌, refl, ◌∙◌}
use doltdb_operator.Effect.{Result}
use doltdb_operator.Effect.Keeps.{Keeps}
use doltdb_operator.Api.DoltDb.{DoltDb}
use doltdb_operator.Dolt.{Role}
use doltdb_operator.Cluster.{Event, Trace, State, call, deleted_pod, assumed_role}

abbrev pub deletions : Trace → List Bytes
deletions [] = []
deletions (deleted_pod name ∷ t) = name ∷ deletions t
deletions (_ ∷ t) = deletions t

-- The calls of DOLT_ASSUME_CLUSTER_ROLE, as index, role and epoch. The transition to standby is a
-- call of its own, `transitioned`.
abbrev pub assumed_roles : Trace → List (ℕ × Role × ℕ)
assumed_roles [] = []
assumed_roles (assumed_role index role epoch ∷ t) = (index, role, epoch) ∷ assumed_roles t
assumed_roles (_ ∷ t) = assumed_roles t

-- The Pods deleted so far are `names`.
abbrev pub Deleted : List Bytes → State → Type 0
Deleted names s = deletions s.trace ≡ names

abbrev pub deletes : Event → Bool
deletes (deleted_pod name) = true
deletes _ = false

deletions-quiet : (e : Event) (t : Trace) → deletes e ≡ false → deletions (e ∷ t) ≡ deletions t
deletions-quiet (deleted_pod name) t h = cc
deletions-quiet _ t h = refl

-- The object is `d` and the Pods deleted so far are `names`.
abbrev pub Quiet : DoltDb → List Bytes → State → Type 0
Quiet d names s = (s.doltdb ≡ d) × (deletions s.trace ≡ names)

module _ {d : DoltDb} {names : List Bytes} where
  -- A call that deletes no Pod is quiet.
  pub Keeps-call :
      {A : Type 0} (e : Event) (answer : Trace → Result A)
      → deletes e ≡ false
      → Keeps (Quiet d names) (call e answer)
  unfolding call
  Keeps-call e answer h = record { at = λ s q. (q.0, deletions-quiet e s.trace h ∙ q.1) }
