-- ===== src/Update/Deletions.antt =====
-- Which Pods an update deletes: at most one in a pass, replicas before the primary.
use doltdb_operator.Prelude.{
  ℕ, Bool, true, false, List, [], ◌∷◌, Option, none, some, Bytes, ◌≡◌, refl, sym, ap, String, ◌∙◌,
  if◌then◌else◌, ◌⊎◌, inl, inr, ◌&&◌, is_empty, Bool-cases, ◌++◌,
}
use doltdb_operator.Effect.{fail, message}
use doltdb_operator.Effect.Keeps.{Keeps-pure, Keeps-fail}
use doltdb_operator.Effect.Ends.{
  Ends, Ends-Keeps, Ends-if, Ends-attempt, Ends-bind, Ends-then, Ends-attempt_first,
}
use doltdb_operator.Api.DoltDb.{DoltDb}
use doltdb_operator.Api.Pod.{Pod}
use doltdb_operator.Cluster.{Env, State, call, delete_pod}
use doltdb_operator.Cluster.Traces.{Quiet}
use doltdb_operator.Update.Primary.{
  update_pod, promote_and_update, hand_over, graceful_from, graceful_primary_update,
}
use doltdb_operator.Update.Quiet.{
  quiet_rules, poll_until_pod_updated-Quiet, mark_role-Quiet, is_dolt_db_replica_healthy-Quiet,
  assume_role-Quiet, transition_to_standby-Quiet, standby_host_fqdns-Quiet,
  get_role_and_epoch-Quiet, wait_for_replication_caught_up-Quiet, wait_for_ready_status-Quiet,
  get_revision-Quiet, get_pods_by_role-Quiet,
}

-- The Pods deleted so far are `names`, or those and `name`.
abbrev pub AtMost : Bytes → DoltDb → List Bytes → State → Type 0
AtMost name d names s = Quiet d names s ⊎ Quiet d (name ∷ names) s

pub ruleset step_rules = (
  quiet_rules, mark_role-Quiet, is_dolt_db_replica_healthy-Quiet, assume_role-Quiet,
  transition_to_standby-Quiet, standby_host_fqdns-Quiet, get_role_and_epoch-Quiet, Ends-attempt,
  Ends-bind, Ends-if, inl,
)

module _ {d : DoltDb} {names : List Bytes} (env : Env) where
  delete_pod-Ends :
      (name : Bytes) → Ends (Quiet d names) (Quiet d (name ∷ names)) (delete_pod env name)
  unfolding call
  delete_pod-Ends name = record { at = λ s q. (q.0, ap (λ l. name ∷ l) q.1) }

  update_pod-Ends :
      (p : Pod) (revision : Bytes)
      → Ends (Quiet d names) (Quiet d (p.name ∷ names)) (update_pod env p revision)
  unfolding update_pod
  update_pod-Ends p revision =
      Ends-then _ _
        (Ends-attempt_first _ _ _ (delete_pod-Ends p.name) (λ a. Keeps-pure a) (λ e. Keeps-fail _))
        (λ a. search (quiet_rules, poll_until_pod_updated-Quiet env) depth 8)

  pub update_pod-AtMost :
      (p : Pod) (revision : Bytes)
      → Ends (Quiet d names) (AtMost p.name d names) (update_pod env p revision)
  update_pod-AtMost p revision = record { at = λ s q. inr ((update_pod-Ends p revision).at s q) }

  pub left : (name : Bytes) (s : State) → Quiet d names s → AtMost name d names s
  left name s q = inl q

  failed-Ends :
      {A : Type 0} (name : Bytes) (text : String)
      → Ends (Quiet d names) (AtMost name d names) (fail {A = A} (message text))
  unfolding fail
  failed-Ends name text = record { at = λ s q. inl q }

  promote_and_update-Ends :
      (p : Pod) (revision : Bytes) (epoch index : ℕ)
      → Ends (Quiet d names) (AtMost p.name d names) (promote_and_update env p revision epoch index)
  unfolding promote_and_update
  promote_and_update-Ends p revision epoch index =
      search (step_rules, update_pod-AtMost, left p.name) depth 20

  hand_over-Ends :
      (p : Pod) (revision : Bytes) (index : ℕ)
      → Ends (Quiet d names) (AtMost p.name d names) (hand_over env p revision index)
  unfolding hand_over
  hand_over-Ends p revision index =
      search (step_rules, update_pod-AtMost, promote_and_update-Ends) depth 20

  graceful_from-Ends :
      (p : Pod) (revision : Bytes) (enabled : Bool) (index : Option ℕ)
      → Ends (Quiet d names) (AtMost p.name d names) (graceful_from env p revision enabled index)
  graceful_from-Ends p revision enabled none = update_pod-AtMost p revision
  graceful_from-Ends p revision false (some i) = update_pod-AtMost p revision
  graceful_from-Ends p revision true (some i) =
      search (step_rules, update_pod-AtMost, hand_over-Ends) depth 10

  pub graceful_primary_update-Ends :
      (p : Pod) (revision : Bytes)
      → Ends (Quiet d names) (AtMost p.name d names) (graceful_primary_update env p revision)
  unfolding graceful_primary_update
  graceful_primary_update-Ends p revision =
      search (step_rules, graceful_from-Ends, left p.name) depth 10
