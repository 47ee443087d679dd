-- ===== src/Sql.antt =====
-- pkg/dolt/sql: replication.go, state.go and sql_clientset.go. A query is a call of `Env`, its rows
-- scanned; the server is named by the index of its Pod.
pub mod Roles
use doltdb_operator.Prelude.{
  ℕ, suc, ◌+◌, Bool, true, false, List, [], ◌∷◌, Option, none, some, Bytes, str_eq, has_prefix, ltb,
  ◌==◌, ◌||◌, any, keep, not, if◌then◌else◌,
}
use doltdb_operator.Effect.{
  Error, message, Result, ok, err, is_not_found, Op, pure, fail, lift, gets, modify, ◌>>=◌, ◌>>◌,
  attempt, wrap,
}
use doltdb_operator.Dolt.{Role, DoltStatus, DbState, empty_state}
use doltdb_operator.Cluster.{
  Env, State, Trace, TransitionRow, call, connect, doltdb_now, connected, queried_role,
  queried_status, queried_version, transitioned, assumed_role,
}

pub record TransitionStandbyOpts : Type 0 where
  pub epoch : ℕ
  pub min_caught_up_standbys : ℕ
  pub hosts : List Bytes

-- `numCaughtUp[host]++`.
unfoldable pub count_host : Bytes → List (Bytes × ℕ) → List (Bytes × ℕ)
count_host host [] = (host, 1) ∷ []
count_host host ((h, n) ∷ rest) =
    if str_eq h host then (h, n + 1) ∷ rest else (h, n) ∷ count_host host rest

unfoldable pub count_caught_up : List (Bytes × ℕ) → List TransitionRow → List (Bytes × ℕ)
unfolding count_host
count_caught_up counts [] = counts
count_caught_up counts (row ∷ rows) =
    count_caught_up (if row.caught_up == 1 then count_host row.host counts else counts) rows

-- `maxCaughtUpHost` and `maxCaughtUp`.
unfoldable pub max_host : Bytes × ℕ → List (Bytes × ℕ) → Bytes × ℕ
max_host best [] = best
max_host (host, max) ((h, n) ∷ rest) = max_host (if ltb max n then (h, n) else (host, max)) rest

unfoldable pub find_row : Bytes → List TransitionRow → Option TransitionRow
find_row host [] = none
find_row host (row ∷ rows) = if str_eq row.host host then some row else find_row host rows

-- The first host that is the name or begins with it, by its position.
unfoldable pub find_host : ℕ → Bytes → List Bytes → Option ℕ
find_host i name [] = none
find_host i name (host ∷ hosts) =
    if str_eq host name || has_prefix host name then some i else find_host (suc i) name hosts

abbrev no_caught_up_url : Error
no_caught_up_url = message "internal error: did not find caught up URL of the caught up host: %s"

abbrev host_position : List Bytes → Option TransitionRow → Result ℕ
host_position hosts none = err no_caught_up_url
host_position hosts (some row) = elim (find_host 0 row.hostname hosts) [
  | none ↦ err no_caught_up_url
  | some i ↦ ok i
]

-- `TransitionToStandby`, after the rows are read.
unfoldable pub caught_up_position :
    (List (Bytes × ℕ) → List (Bytes × ℕ)) → List Bytes → List TransitionRow → Result ℕ
unfolding count_caught_up max_host find_row find_host
caught_up_position order hosts rows =
    host_position hosts (find_row (max_host ([], 0) (order (count_caught_up [] rows))).0 rows)

abbrev pub require_row : Option (Role × ℕ) → Result (Role × ℕ)
require_row none = err (message "querying DoltDB and epoch should have return values, but did not")
require_row (some found) = ok found

-- What `AssumeRole` makes of the answer: a row with a status other than 0 is an error.
abbrev pub check_status : Option ℕ → Result (Unit {0})
check_status none = ok tt
check_status (some status) =
    if status == 0
    then ok tt
    else err (message "error calling dolt_assume_role('%s', %d) was %d, not 0")

-- `ClientSet.validateIndex`.
abbrev validate_index : ℕ → ℕ → Result (Unit {0})
validate_index replicas index =
    if ltb index replicas
    then ok tt
    else err (message "index '%d' out of DoltDB replicas bounds [0, %d]")

-- `ClientSet.RemoveClientFromCache`.
unfoldable pub remove_client_from_cache : ℕ → Op State (Unit {0})
remove_client_from_cache index =
    modify λ s. record s { clients = keep (λ i. not (i == index)) s.clients }

-- `NewClientSet`.
unfoldable pub new_client_set : Op State (Unit {0})
new_client_set = modify λ s. record s { clients = [] }

abbrev pub joined : Option Error → Option Error → Option Error
joined none e = e
joined (some d) e = some d

abbrev pub value_or : {A : Type 0} → A → Result A → A
value_or d (ok a) = a
value_or d (err e) = d

abbrev pub error_of : {A : Type 0} → Result A → Option Error
error_of (ok a) = none
error_of (err e) = some e

-- `v, err := m()`, the error kept for later.
abbrev pub tried : {A B : Type 0} → Op State A → (Result A → Op State B) → Op State B
tried m f = attempt m (λ a. f (ok a)) (λ e. f (err e))

module _ (env : Env) where
  unfoldable pub add_client : ℕ → Op State (Unit {0})
  unfolding call
  add_client index = do
    wrap "error creating replica '%d' client: %v" (connect env index)
    modify λ s. record s { clients = index ∷ s.clients }

  -- `ClientSet.ClientForIndex`: afterwards the server with the index may be queried.
  unfoldable pub client_for_index : ℕ → Op State (Unit {0})
  unfolding add_client
  client_for_index index = do
    d ← doltdb_now
    wrap "invalid index. %v" (lift (validate_index d.spec.replicas index))
    cached ← gets (λ s. any (λ i. i == index) s.clients)
    if cached then pure tt else add_client index

  -- `GetRoleAndEpoch`.
  unfoldable pub get_role_and_epoch : ℕ → Op State (Role × ℕ)
  unfolding call
  get_role_and_epoch index = do
    row ← call (queried_role index) (λ t. env.query_role t index)
    lift (require_row row)

  -- `GetClusterStatus`.
  unfoldable pub get_cluster_status : ℕ → Op State (List DoltStatus)
  unfolding call
  get_cluster_status index = call (queried_status index) (λ t. env.query_cluster_status t index)

  -- `GetVersion`.
  unfoldable pub get_version : ℕ → Op State Bytes
  unfolding call
  get_version index = call (queried_version index) (λ t. env.query_version t index)

  -- `AssumeRole`.
  unfoldable pub assume_role : ℕ → Role → ℕ → Op State (Unit {0})
  unfolding call
  assume_role index role epoch =
      call (assumed_role index role epoch) (λ t. env.call_assume_role t index role epoch) >>= λ row.
      lift (check_status row)

  -- `TransitionToStandby`: the position in `hosts` of the caught-up host.
  unfoldable pub transition_to_standby : ℕ → TransitionStandbyOpts → Op State ℕ
  unfolding call caught_up_position
  transition_to_standby index opts = do
    rows ←
        call (transitioned index opts.epoch)
          (λ t. env.call_transition t index opts.epoch opts.min_caught_up_standbys)
    lift (caught_up_position env.map_order opts.hosts rows)

  -- `GetDBState`: a failed query of the role gives up; those of the version and of the status
  -- leave their field empty and their error in the state.
  unfoldable pub get_db_state : ℕ → Op State (Result DbState)
  unfolding get_role_and_epoch get_cluster_status get_version
  get_db_state index =
      attempt (get_role_and_epoch index)
        (λ (role, epoch). tried (get_version index) λ version.
          tried (get_cluster_status index) λ status. pure (
            ok (record {
              role = role;
              epoch = epoch;
              status = value_or [] status;
              version = value_or [] version;
              error = joined (error_of version) (error_of status);
            })))
        (λ e. pure (err e))
