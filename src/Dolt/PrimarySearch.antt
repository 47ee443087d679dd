-- ===== src/Dolt/PrimarySearch.antt =====
-- `CurrentPrimaryAndEpoch` against the list of all primaries and the greatest epoch.
use doltdb_operator.Prelude.{ℕ, suc, List, [], ◌∷◌, none, some, ltb, if◌then◌else◌, ◌≡◌, arith}
use doltdb_operator.Effect.{Result, ok, err, message}
use doltdb_operator.Dolt.{
  DbState, is_primary, higher, primary_from, require_primary, current_primary_and_epoch,
}

-- The indices of the servers in role primary, counted from `i`.
abbrev pub primaries_from : ℕ → List DbState → List ℕ
primaries_from i [] = []
primaries_from i (state ∷ rest) =
    let others = primaries_from (suc i) rest in if is_primary state.role then i ∷ others else others

abbrev pub primaries : List DbState → List ℕ
primaries = primaries_from 0

abbrev max : ℕ → ℕ → ℕ
max a b = if ltb a b then b else a

-- The greatest epoch of any server, and 0 of none.
abbrev pub max_epoch : List DbState → ℕ
max_epoch [] = 0
max_epoch (state ∷ rest) = max (max_epoch rest) state.epoch

-- What the search answers, by the number of primaries.
abbrev pub by_primaries : List ℕ → ℕ → Result (ℕ × ℕ)
by_primaries [] epoch = err (message "no reachable pod was in role primary")
by_primaries (i ∷ []) epoch = ok (i, epoch)
by_primaries (i ∷ j ∷ rest) epoch =
    err (message "more than one reachable pod was in role primary: %s and %s")

primary_from_second :
    (i c h : ℕ) (states : List DbState)
    → require_primary (primary_from i (some c) h states)
      ≡ by_primaries (c ∷ primaries_from i states) (max h (max_epoch states))
unfolding primary_from
primary_from_second i c h [] = ground arith
primary_from_second i c h (state ∷ rest) =
    ground (arith, primary_from_second (suc i) c (higher h state.epoch) rest)

primary_from_first :
    (i h : ℕ) (states : List DbState)
    → require_primary (primary_from i none h states)
      ≡ by_primaries (primaries_from i states) (max h (max_epoch states))
unfolding primary_from
primary_from_first i h [] = ground arith
primary_from_first i h (state ∷ rest) = ground (
  arith,
  primary_from_first (suc i) (higher h state.epoch) rest,
  primary_from_second (suc i) i (higher h state.epoch) rest,
)

-- The search for the primary answers with the index of the only server in role primary and the
-- greatest epoch of all servers, and fails if there is no such server or more than one.
pub current_primary_and_epoch-primaries :
    (states : List DbState)
    → current_primary_and_epoch states ≡ by_primaries (primaries states) (max_epoch states)
unfolding current_primary_and_epoch
current_primary_and_epoch-primaries states = ground (arith, primary_from_first 0 0 states)
