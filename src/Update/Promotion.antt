-- ===== src/Update/Promotion.antt =====
-- Which server a graceful update of the primary promotes.
use doltdb_operator.Prelude.{
  ℕ, zero, suc, ◌+◌, Bool, true, List, [], ◌∷◌, some, Bytes, ◌≡◌, refl, ◌∙◌, ap, arith,
}
use doltdb_operator.Effect.{Result, ok, Op, pure, ◌>>=◌, ◌>>◌, wrap, attempt}
use doltdb_operator.Effect.Keeps.{Keeps, Keeps-pure, Keeps-if, Keeps-bind, Keeps-fail}
use doltdb_operator.Effect.Ends.{Ends, Ends-then, Ends-attempt_first}
use doltdb_operator.Api.DoltDb.{replication_enabled, internal_service_name}
use doltdb_operator.Api.Pod.{Pod}
use doltdb_operator.Dolt.{Role, primary, standby}
use doltdb_operator.Naming.{pod_index, pod_short_fqdn}
use doltdb_operator.Cluster.{
  Env, Event, State, Trace, TransitionRow, call, connect, queried_role, listed_pods, transitioned,
}
use doltdb_operator.Effect.Steps.{bind-ok, attempt-ok, wrap-ok}
use doltdb_operator.Cluster.Traces.{assumed_roles}
use doltdb_operator.Cluster.Roles.{Roles, roles_rules}
use doltdb_operator.Sql.Roles.{assume_role-Ends}
use doltdb_operator.PodRoles.{mark_role}
use doltdb_operator.Sql.{assume_role, get_role_and_epoch, transition_to_standby, caught_up_position}
use doltdb_operator.Health.{
  is_dolt_db_replica_healthy, standby_host_fqdns, healthy_dolt_db_standbys, standbys_of, hosts_of,
  sort_pod_list,
}
use doltdb_operator.Update.Primary.{
  poll, pod_is_updated, poll_until_pod_updated, update_pod, promote_and_update, hand_over,
  graceful_from, graceful_primary_update,
}

module _ {changes : List (ℕ × Role × ℕ)} (env : Env) where
  pod_is_updated-Roles : (n r : Bytes) → Keeps (Roles changes) (pod_is_updated env n r)
  unfolding pod_is_updated
  pod_is_updated-Roles n r = search roles_rules depth 10

  poll-Roles :
      (k : ℕ) (m : Op State Bool) → Keeps (Roles changes) m → Keeps (Roles changes) (poll k m)
  unfolding poll
  poll-Roles zero m h = search roles_rules
  poll-Roles (suc k) m h =
      Keeps-bind m _ h
        (λ done. Keeps-if done (pure tt) (poll k m) (Keeps-pure tt) (poll-Roles k m h))

  poll_until_pod_updated-Roles :
      (n r : Bytes) → Keeps (Roles changes) (poll_until_pod_updated env n r)
  unfolding poll_until_pod_updated
  poll_until_pod_updated-Roles n r = search (roles_rules, poll-Roles, pod_is_updated-Roles) depth 8

  update_pod-Roles : (p : Pod) (r : Bytes) → Keeps (Roles changes) (update_pod env p r)
  unfolding update_pod
  update_pod-Roles p r = search (roles_rules, poll_until_pod_updated-Roles) depth 8

  mark_role-Roles : (p : Pod) (r : Role) → Keeps (Roles changes) (mark_role env p r)
  unfolding mark_role
  mark_role-Roles p r = search roles_rules depth 8

  healthy-Roles : (i : ℕ) → Keeps (Roles changes) (is_dolt_db_replica_healthy env i)
  unfolding is_dolt_db_replica_healthy
  healthy-Roles i = search roles_rules depth 8

-- The steps of a promotion after the server was asked to become the primary.
abbrev after_promotion : Env → Pod → Bytes → ℕ → Op State (Unit {0})
after_promotion env pod revision index = do
  wrap "error marking old primary pod '%s' as standby: %v" (mark_role env pod standby)
  found ←
      wrap "error getting new primary pod at index %d: %v" (is_dolt_db_replica_healthy env index)
  wrap "error marking new primary pod '%s': %v" (mark_role env found.0 primary)
  update_pod env pod revision

module _ {changes : List (ℕ × Role × ℕ)} (env : Env) where
  after_promotion-Roles :
      (pod : Pod) (revision : Bytes) (index : ℕ)
      → Keeps (Roles changes) (after_promotion env pod revision index)
  after_promotion-Roles pod revision index =
      search (roles_rules, mark_role-Roles, healthy-Roles, update_pod-Roles) depth 20

module _ {changes : List (ℕ × Role × ℕ)} (env : Env) where
  assume_and_after-Ends :
      (pod : Pod) (revision : Bytes) (e i : ℕ)
      → Ends (Roles changes) (Roles ((i, primary, e) ∷ changes)) (
          wrap "error promoting standby at index %d to primary: %v" (assume_role env i primary e)
          >> after_promotion env pod revision i)
  assume_and_after-Ends pod revision e i =
      Ends-then _ _
        (Ends-attempt_first _ _ _ (assume_role-Ends env i primary e) (λ a. Keeps-pure a)
          (λ x. Keeps-fail _))
        (λ _. after_promotion-Roles env pod revision i)

module _ (env : Env) (connected : (t : Trace) (i : ℕ) → env.connect t i ≡ ok tt) where
  promoted :
      (pod : Pod) (revision : Bytes) (epoch index : ℕ) (s : State)
      → assumed_roles (promote_and_update env pod revision epoch index s).1.trace
        ≡ (index, primary, epoch) ∷ assumed_roles s.trace
  unfolding promote_and_update ◌>>=◌ attempt call assume_role
  promoted pod revision epoch index s =
      rw connected ((assume_and_after-Ends env pod revision epoch index).at _ refl)

single_position :
    (order : List (Bytes × ℕ) → List (Bytes × ℕ)) (h : Bytes) (rows : List TransitionRow) (j : ℕ)
    → caught_up_position order (h ∷ []) rows ≡ ok j
    → j ≡ 0
unfolding caught_up_position
single_position order h rows j e = ground arith

module _ (env : Env) (pods : List Pod) (role : Role) (epoch : ℕ) (rows : List TransitionRow)
    (connected : (t : Trace) (i : ℕ) → env.connect t i ≡ ok tt)
    (answered : (t : Trace) (i : ℕ) → env.query_role t i ≡ ok (some (role, epoch)))
    (listed : (t : Trace) → env.list_pods t ≡ ok pods)
    (moved : (t : Trace) (i e n : ℕ) → env.call_transition t i e n ≡ ok rows) where
  role_answer :
      (q : ℕ) (s : State)
      → get_role_and_epoch env q s
        ≡ (ok (role, epoch), record s { trace = queried_role q ∷ s.trace })
  unfolding get_role_and_epoch call ◌>>=◌
  role_answer q s = rw answered

  connect_answer :
      (q : ℕ) (s : State)
      → connect env q s ≡ (ok tt, record s { trace = Event.connected q ∷ s.trace })
  unfolding call
  connect_answer q s = rw connected

  standbys_answer :
      (p : Pod) (s : State)
      → standbys_of s.doltdb.status.current_primary_pod_index (sort_pod_list pods) ≡ ok (p ∷ [])
      → healthy_dolt_db_standbys env s ≡ (ok (p ∷ []), record s { trace = listed_pods ∷ s.trace })
  unfolding healthy_dolt_db_standbys call ◌>>=◌ attempt
  standbys_answer p s single = rw (listed, single)

  hosts_answer :
      (p : Pod) (k : ℕ) (s : State)
      → standbys_of s.doltdb.status.current_primary_pod_index (sort_pod_list pods) ≡ ok (p ∷ [])
      → pod_index p.name ≡ ok k
      → standby_host_fqdns env s ≡ (
        ok (
            pod_short_fqdn s.doltdb.name s.doltdb.namespace k (internal_service_name s.doltdb)
            ∷ []),
        record s { trace = listed_pods ∷ s.trace },
      )
  unfolding standby_host_fqdns
  hosts_answer p k s single indexed =
      bind-ok _ _ (wrap-ok _ _ (standbys_answer p s single)) ∙ (unfold ◌>>=◌ hosts_of in rw indexed)

  move_answer :
      (hosts : List Bytes) (q e j : ℕ) (s : State)
      → caught_up_position env.map_order hosts rows ≡ ok j
      → transition_to_standby env q
          (record { epoch = e; min_caught_up_standbys = 1; hosts = hosts })
          s
        ≡ (ok j, record s { trace = transitioned q e ∷ s.trace })
  unfolding transition_to_standby call ◌>>=◌
  move_answer hosts q e j s found = rw (moved, found)

  hand_over_promotes :
      (pod p : Pod) (revision : Bytes) (q k j : ℕ) (s : State)
      → standbys_of s.doltdb.status.current_primary_pod_index (sort_pod_list pods) ≡ ok (p ∷ [])
      → pod_index p.name ≡ ok k
      → caught_up_position env.map_order
          (pod_short_fqdn s.doltdb.name s.doltdb.namespace k (internal_service_name s.doltdb) ∷ [])
          rows
        ≡ ok j
      → assumed_roles (hand_over env pod revision q s).1.trace
        ≡ (0, primary, epoch + 1) ∷ assumed_roles s.trace
  unfolding hand_over
  hand_over_promotes pod p revision q k j s single indexed found =
      ap (λ (x : Result (Unit {0}) × State). assumed_roles x.1.trace)
        (attempt-ok _ _ _ (role_answer q s)
          ∙ attempt-ok _ _ _
              (hosts_answer p k (record s { trace = queried_role q ∷ s.trace }) single indexed)
          ∙ attempt-ok _ _ _ (move_answer _ q (epoch + 1) j _ found))
      ∙ promoted env connected pod revision (epoch + 1) j _
      ∙ ap (λ i. (i, primary, epoch + 1) ∷ assumed_roles s.trace)
          (single_position env.map_order _ rows j found)

  -- With one healthy standby, in a Pod of any index k, and a cluster that answers the hand-over's
  -- queries and finds a caught-up host, a graceful update of the primary asks exactly one server to
  -- become the primary, the one with index 0, at the epoch after the primary's.
  pub sole_standby_promotes_index_zero :
      (pod p : Pod) (revision : Bytes) (q k j : ℕ) (s : State)
      → replication_enabled s.doltdb ≡ true
      → s.doltdb.status.current_primary_pod_index ≡ some q
      → standbys_of (some q) (sort_pod_list pods) ≡ ok (p ∷ [])
      → pod_index p.name ≡ ok k
      → caught_up_position env.map_order
          (pod_short_fqdn s.doltdb.name s.doltdb.namespace k (internal_service_name s.doltdb) ∷ [])
          rows
        ≡ ok j
      → assumed_roles (graceful_primary_update env pod revision s).1.trace
        ≡ (0, primary, epoch + 1) ∷ assumed_roles s.trace
  unfolding graceful_primary_update ◌>>=◌
  sole_standby_promotes_index_zero pod p revision q k j s enabled current single indexed found =
      ap (λ (x : Result (Unit {0}) × State). assumed_roles x.1.trace)
        (ap (λ b. graceful_from env pod revision b s.doltdb.status.current_primary_pod_index s)
            enabled
          ∙ ap (λ o. graceful_from env pod revision true o s) current
          ∙ attempt-ok _ _ _ (connect_answer q s))
      ∙ hand_over_promotes pod p revision q k j (record s { trace = Event.connected q ∷ s.trace })
          (ap (λ c. standbys_of c (sort_pod_list pods)) current ∙ single) indexed found
