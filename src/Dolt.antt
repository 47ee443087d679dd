-- ===== src/Dolt.antt =====
-- pkg/dolt/replication.go: what the operator knows of each server, and the choice of a primary.
pub mod PrimarySearch
pub mod NextPrimary
use doltdb_operator.Prelude.{
  ℕ, suc, Bool, true, false, List, [], ◌∷◌, Option, none, some, Bytes, ltb, ◌==◌, ◌&&◌, ◌||◌, not,
  if◌then◌else◌, is_some,
}
use doltdb_operator.Effect.{Error, Result, ok, err, message}

-- The role that a server reports; `blank` is the empty string.
pub data Role : Type 0 where
  blank primary standby other : Role

abbrev pub is_primary : Role → Bool
is_primary primary = true
is_primary _ = false

abbrev pub is_standby : Role → Bool
is_standby standby = true
is_standby _ = false

abbrev pub is_blank : Role → Bool
is_blank blank = true
is_blank _ = false

-- A time in nanoseconds; Go's zero time is 0.
abbrev pub Time : Type 0
Time = ℕ

-- `sql.NullInt64`, `NullTime` and `NullString` are options.
pub record DoltStatus : Type 0 where
  pub database : Bytes
  pub role : Role
  pub epoch : ℕ
  pub remote : Bytes
  pub replication_lag : Option ℕ
  pub last_update : Option Time
  pub current_error : Option Bytes

pub record DbState : Type 0 where
  pub role : Role
  pub epoch : ℕ
  pub status : List DoltStatus
  pub version : Bytes
  pub error : Option Error

-- The zero `dolt.DBState{}`.
abbrev pub empty_state : DbState
empty_state = record { role = blank; epoch = 0; status = []; version = []; error = none }

older : Time → Option Time → Time
older oldest none = oldest
older oldest (some t) = if oldest == 0 || ltb t oldest then t else oldest

oldest_from : Time → List DoltStatus → Time
oldest_from oldest [] = oldest
oldest_from oldest (s ∷ rest) = oldest_from (older oldest s.last_update) rest

-- The oldest valid `LastUpdate` of a server, the zero time if it has none: the inner loop of
-- `PickNextPrimary` and of `selectFailoverCandidate`.
unfoldable pub oldest_update : List DoltStatus → Time
unfolding older oldest_from
oldest_update statuses = oldest_from 0 statuses

-- `firstStandby`, `nextPrimary` (-1 is `none`) and `updated` of `PickNextPrimary`.
pub record Pick : Type 0 where
  pub first_standby : Option ℕ
  pub next_primary : Option ℕ
  pub updated : Time

abbrev first_or : Option ℕ → ℕ → Option ℕ
first_or none i = some i
first_or (some j) i = some j

unfoldable pub consider : ℕ → DbState → Pick → Pick
consider i state p =
    let oldest = oldest_update state.status in
    let q = record p { first_standby = first_or p.first_standby i } in
    if is_standby state.role
    then (if not (oldest == 0) && (p.updated == 0 || ltb p.updated oldest)
        then record q { next_primary = some i; updated = oldest }
        else q)
    else p

pick_from : ℕ → Pick → List DbState → Pick
pick_from i p [] = p
pick_from i p (state ∷ rest) = pick_from (suc i) (consider i state p) rest

abbrev chosen : Pick → Option ℕ
chosen p = elim p.next_primary [ none ↦ p.first_standby | some i ↦ some i ]

-- `PickNextPrimary`.
unfoldable pub pick_next_primary : List DbState → Option ℕ
unfolding pick_from consider
pick_next_primary states =
    chosen (pick_from 0 (record { first_standby = none; next_primary = none; updated = 0 }) states)

abbrev higher : ℕ → ℕ → ℕ
higher highest epoch = if ltb highest epoch then epoch else highest

primary_from : ℕ → Option ℕ → ℕ → List DbState → Result (Option ℕ × ℕ)
primary_from i current highest [] = ok (current, highest)
primary_from i current highest (state ∷ rest) =
    let next = if is_primary state.role then some i else current in
    let others = primary_from (suc i) next (higher highest state.epoch) rest in
    if is_primary state.role && is_some current
    then err (message "more than one reachable pod was in role primary: %s and %s")
    else others

abbrev require_primary : Result (Option ℕ × ℕ) → Result (ℕ × ℕ)
require_primary (err e) = err e
require_primary (ok (none, epoch)) = err (message "no reachable pod was in role primary")
require_primary (ok (some i, epoch)) = ok (i, epoch)

-- `CurrentPrimaryAndEpoch`; the DoltDB serves its error texts only.
unfoldable pub current_primary_and_epoch : List DbState → Result (ℕ × ℕ)
unfolding primary_from
current_primary_and_epoch states = require_primary (primary_from 0 none 0 states)
