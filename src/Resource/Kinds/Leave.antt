-- ===== src/Resource/Kinds/Leave.antt =====
-- Cleaning a database, a user or a grant up leaves the object on the server alone.
use doltdb_operator.Prelude.{ℕ, zero, suc, List, Bytes, ◌≡◌}
use doltdb_operator.Effect.{Result}
use doltdb_operator.Effect.Keeps.{
  Keeps, keeps_rules, Keeps-pure, Keeps-attempt, Keeps-gets, Keeps-bind,
}
use doltdb_operator.Resource.{Event, looked_for_user, State, Env, Trace, call, exec}
use doltdb_operator.Resource.Cleanup.{LeavesObject}
use doltdb_operator.Resource.Kinds.Database.{
  DatabaseSpec, drop_database, clean_up_database, database_kind,
}
use doltdb_operator.Resource.Kinds.User.{UserSpec, drop_user, clean_up_user, user_kind}
use doltdb_operator.Resource.Kinds.Grant.{
  GrantSpec, Polled, user_gone, interrupted, poll_failed, poll_user, revoke_unless_gone,
  clean_up_grant, grant_kind,
}

module _ (env : Env) (fs : List Bytes) where
  Same : State → Type 0
  Same s = s.stored.finalizers ≡ fs

  call_kept : {A : Type 0} (e : Event) (answer : Trace → Result A) → Keeps Same (call e answer)
  unfolding call Same
  call_kept e answer = record { at = λ s h. h }

  exec_kept : (statement : Bytes) → Keeps Same (exec env statement)
  unfolding exec
  exec_kept statement = search call_kept

  database_kept : (spec : DatabaseSpec) → Keeps Same (clean_up_database env spec)
  unfolding clean_up_database drop_database
  database_kept spec = search (keeps_rules, exec_kept) depth 12

  user_kept : (u : UserSpec) → Keeps Same (clean_up_user env u)
  unfolding clean_up_user drop_user
  user_kept u = search (keeps_rules, exec_kept) depth 8

  poll_kept : (g : GrantSpec) (rounds : ℕ) → Keeps Same (poll_user env g rounds)
  unfolding poll_user
  poll_kept g zero = Keeps-pure interrupted
  poll_kept g (suc rounds) =
      Keeps-attempt _ _ _ (call_kept looked_for_user (λ t. env.get_user t g.namespace g.username))
        (λ _. poll_kept g rounds) (λ e. Keeps-pure _)

  revoke_kept : (g : GrantSpec) (p : Polled) → Keeps Same (revoke_unless_gone env g p)
  revoke_kept g user_gone = search keeps_rules
  revoke_kept g interrupted = search (keeps_rules, exec_kept) depth 8
  revoke_kept g (poll_failed e) = search keeps_rules

  grant_kept : (g : GrantSpec) → Keeps Same (clean_up_grant env g)
  unfolding clean_up_grant
  grant_kept g = Keeps-bind _ _ (Keeps-gets _) (λ n. Keeps-bind _ _ (poll_kept g n) (revoke_kept g))

module _ (env : Env) where
  pub database_kind-LeavesObject : (spec : DatabaseSpec) → LeavesObject (database_kind env spec)
  unfolding Same
  database_kind-LeavesObject spec = record { clean_up_kept = λ fs. database_kept env fs spec }

  pub user_kind-LeavesObject : (u : UserSpec) → LeavesObject (user_kind env u)
  unfolding Same
  user_kind-LeavesObject u = record { clean_up_kept = λ fs. user_kept env fs u }

  pub grant_kind-LeavesObject : (g : GrantSpec) → LeavesObject (grant_kind env g)
  unfolding Same
  grant_kind-LeavesObject g = record { clean_up_kept = λ fs. grant_kept env fs g }
