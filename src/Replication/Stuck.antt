-- ===== src/Replication/Stuck.antt =====
-- A switchover whose target is the current primary is never marked as done.
use doltdb_operator.Prelude.{
  ℕ, List, Bool, true, false, Option, none, some, ◌≡◌, refl, ◌∙◌, ap, if◌then◌else◌, not, ◌||◌,
  arith,
}
use mathlib.Core.Path.{sym}
use doltdb_operator.Effect.{Requeue, nothing, Op, pure, ◌>>=◌, ◌>>◌}
use doltdb_operator.Effect.Keeps.{Keeps, Keeps-bind, Keeps-pure}
use doltdb_operator.Api.DoltDb.{DoltDb, primary_pod_index, replication_enabled}
use doltdb_operator.Api.Status.{is_switching_primary, is_resizing_storage}
use doltdb_operator.Cluster.{Env, State, call, doltdb_now}
use doltdb_operator.Cluster.Traces.{assumed_roles}
use doltdb_operator.Cluster.Roles.{assumed_roles-quiet}
use doltdb_operator.Api.Condition.{Meta}
use doltdb_operator.Dolt.{DbState}
use doltdb_operator.Replication.Safety.{Changes}
use doltdb_operator.Replication.Calls.{Stable, Keeps-now, get_db_states_kept, new_client_set_kept}
use doltdb_operator.Replication.Switchover.{
  other_index, reconcile_switchover, should_reconcile_switchover, switch_over,
}
use doltdb_operator.Replication.Reconcile.{reconcile_healthy, reconcile}
use doltdb_operator.Sql.{new_client_set}
use doltdb_operator.Update.{should_reconcile_updates}

-- The object is `d`, and the roles asked for so far are `changes`.
abbrev Frozen : DoltDb → Changes → State → Type 0
Frozen d changes s = (s.doltdb ≡ d) × (assumed_roles s.trace ≡ changes)

Frozen-stable : {d : DoltDb} {changes : Changes} → Stable (Frozen d changes)
unfolding call
Frozen-stable = record {
  of_call = λ e answer h. record { at = λ s q. (q.0, assumed_roles-quiet e s.trace h ∙ q.1) };
  of_clients = λ s c q. q;
}

same_index : (o : Option ℕ) (n : ℕ) → o ≡ some n → other_index o n ≡ false
same_index none n h = cc
same_index (some c) n h = ground arith

no_switchover :
    (m : Meta) (d : DoltDb)
    → d.status.current_primary_pod_index ≡ some (primary_pod_index d)
    → should_reconcile_switchover m d ≡ false
unfolding should_reconcile_switchover
no_switchover m d h = unless (is_resizing_storage m d) _ (same_index _ _ h)
  where
    unless : (b x : Bool) → x ≡ false → (if b then false else x) ≡ false
    unless true x h = refl
    unless false x h = h

module _ (env : Env) {changes : Changes} (d : DoltDb)
    (same : d.status.current_primary_pod_index ≡ some (primary_pod_index d)) where
  switchover-Keeps : Keeps (Frozen d changes) (reconcile_switchover env)
  unfolding reconcile_switchover
  switchover-Keeps = Keeps-bind _ _ (get_db_states_kept Frozen-stable env) decided
    where
      chosen :
          (states : List DbState) (d' : DoltDb)
          → d' ≡ d
          → Keeps (Frozen d changes) (
              if should_reconcile_switchover env.meta d'
              then switch_over env d' states
              else pure tt)
      chosen states d' q =
          rw (ap (should_reconcile_switchover env.meta) q ∙ no_switchover env.meta d same)
            (Keeps-pure tt)

      decided :
          (states : List DbState)
          → Keeps (Frozen d changes) (
              doltdb_now >>= λ d'.
              if should_reconcile_switchover env.meta d'
              then switch_over env d' states
              else pure tt)
      decided states = Keeps-now _ (λ d' s p e. (chosen states d' (sym e ∙ p.0)).at s p)

  reconcile-Keeps :
      replication_enabled d ≡ true
      → is_switching_primary env.meta d ≡ true
      → Keeps (Frozen d changes) (reconcile env)
  unfolding reconcile
  reconcile-Keeps enabled switching = Keeps-now _ (λ d' s p e. (chosen d' (sym e ∙ p.0)).at s p)
    where
      switched :
          (b b' : Bool) (n m o : Op State Requeue)
          → b ≡ true
          → b' ≡ true
          → Keeps (Frozen d changes) m
          → Keeps (Frozen d changes) (if not b then n else (if b' then m else o))
      switched true true n m o h h' k = k
      switched true false n m o h h' k = cc
      switched false b' n m o h h' k = cc

      chosen :
          (d' : DoltDb)
          → d' ≡ d
          → Keeps (Frozen d changes) (
              if not (replication_enabled d')
              then pure nothing
              else (if is_switching_primary env.meta d'
                  then (new_client_set >> (reconcile_switchover env >> pure nothing))
                  else reconcile_healthy env d'))
      chosen d' q =
          switched _ _ _ _ _ (ap replication_enabled q ∙ enabled)
            (ap (is_switching_primary env.meta) q ∙ switching)
            (Keeps-bind _ _ (new_client_set_kept Frozen-stable env)
              (λ _. Keeps-bind _ _ switchover-Keeps (λ _. Keeps-pure nothing)))

-- A DoltDB that is marked as switching while its spec asks for the current primary is left as it is
-- by the replication reconciler, in that state; and then the update reconciler leaves its Pods.
pub switching_to_itself_stays :
    (env : Env) (s : State)
    → replication_enabled s.doltdb ≡ true
    → is_switching_primary env.meta s.doltdb ≡ true
    → s.doltdb.status.current_primary_pod_index ≡ some (primary_pod_index s.doltdb)
    → ((reconcile env s).1.doltdb ≡ s.doltdb)
      × (assumed_roles (reconcile env s).1.trace ≡ assumed_roles s.trace)
      × (should_reconcile_updates env.meta (reconcile env s).1.doltdb ≡ false)
unfolding should_reconcile_updates
switching_to_itself_stays env s enabled switching same =
    let (q, r) = (reconcile-Keeps env s.doltdb same enabled switching).at s (refl, refl) in
    (
      q,
      r,
      skipped (is_resizing_storage env.meta (reconcile env s).1.doltdb) _ _
          (ap (is_switching_primary env.meta) q ∙ switching),
    )
  where
    skipped : (b b' c : Bool) → b' ≡ true → (if b || b' then false else c) ≡ false
    skipped true b' c h = refl
    skipped false b' c h = rw h refl
