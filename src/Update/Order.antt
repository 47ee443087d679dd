-- ===== src/Update/Order.antt =====
-- The order of an update: one Pod in a pass, stale replicas in descending order of names first, and
-- the primary only when no replica is stale.
use doltdb_operator.Prelude.{
  Bool, true, false, List, [], ◌∷◌, Option, none, some, Bytes, ◌≡◌, refl, if◌then◌else◌, ◌⊎◌, inl,
  inr, Bool-cases, String,
}
use doltdb_operator.Effect.{
  Requeue, nothing, again, Result, ok, err, Op, pure, fail, resume, ◌>>=◌, ◌>>◌, wrap, is_zero,
}
use doltdb_operator.Effect.Keeps.{Keeps-pure, Keeps-fail}
use doltdb_operator.Effect.Ends.{
  Ends, Ends-Keeps, Ends-if, Ends-bind, Ends-attempt_first, Ends-then,
}
use doltdb_operator.Api.DoltDb.{DoltDb}
use doltdb_operator.Api.Pod.{Pod, pod_updated}
use doltdb_operator.Cluster.{Env, State}
use doltdb_operator.Cluster.Traces.{Quiet, deletions}
use doltdb_operator.Update.{
  PodRoleSet, get_revision, get_pods_by_role, update_primary, update_replicas, update_stale,
  with_pods, with_revision, reconcile_updates, should_reconcile_updates,
}
use doltdb_operator.Update.Quiet.{
  quiet_rules, wait_for_replication_caught_up-Quiet, wait_for_ready_status-Quiet,
  get_revision-Quiet, get_pods_by_role-Quiet,
}
use doltdb_operator.Update.Deletions.{AtMost, update_pod-AtMost, graceful_primary_update-Ends}

-- The Pod that is next to be updated: the first stale replica, else the primary if it is stale.
abbrev pub next_in : Bytes → Pod → List Pod → Option Pod
next_in revision primary [] = if pod_updated primary revision then none else some primary
next_in revision primary (p ∷ ps) =
    let rest = next_in revision primary ps in if pod_updated p revision then rest else some p

abbrev pub next_update : Bytes → PodRoleSet → Option Pod
next_update revision pods = next_in revision pods.primary pods.replicas

abbrev pub Next : Option Pod → DoltDb → List Bytes → State → Type 0
Next none d names s = Quiet d names s
Next (some p) d names s = AtMost p.name d names s

pub wrapped-Ends :
    {P Q : State → Type 0} (m : Op State (Unit {0})) (text : String) (r : Requeue)
    → Ends P Q m
    → Ends P Q (wrap text m >> pure r)
wrapped-Ends m text r e =
    Ends-then _ _ (Ends-attempt_first _ _ _ e (λ a. Keeps-pure a) (λ e. Keeps-fail _))
      (λ _. Keeps-pure r)

pub left-Next :
    {d : DoltDb} {names : List Bytes} (o : Option Pod) (s : State)
    → Quiet d names s
    → Next o d names s
left-Next none s q = q
left-Next (some p) s q = inl q

module _ {d : DoltDb} {names : List Bytes} (env : Env) where
  update_primary-Ends :
      (revision : Bytes) (p : Pod)
      → Ends
          (Quiet d names)
          (Next (if pod_updated p revision then none else some p) d names)
          (update_primary env revision p)
  update_primary-Ends revision p = elim (Bool-cases (pod_updated p revision)) [
    | inl e ↦ rw e (
        Ends-Keeps _ (search (quiet_rules, wait_for_replication_caught_up-Quiet env) depth 8)
          (λ s q. q))
    | inr e ↦ rw e (
        Ends-bind _ _ (wait_for_replication_caught_up-Quiet env)
          (λ r.
            Ends-if (is_zero r) _ _
              (wrapped-Ends _ _ nothing (graceful_primary_update-Ends env p revision))
              (Ends-Keeps _ (Keeps-pure r) (λ s q. inl q)))
          (λ s q. inl q))
  ]

  update_replicas-Ends :
      (revision : Bytes) (p : Pod) (ps : List Pod)
      → Ends
          (Quiet d names)
          (Next (next_in revision p ps) d names)
          (update_replicas env revision p ps)
  unfolding update_replicas
  update_replicas-Ends revision p [] = update_primary-Ends revision p
  update_replicas-Ends revision p (q ∷ qs) = elim (Bool-cases (pod_updated q revision)) [
    | inl e ↦ rw e (update_replicas-Ends revision p qs)
    | inr e ↦ rw e (wrapped-Ends _ _ again (update_pod-AtMost env q revision))
  ]

  update_stale-Ends :
      (revision : Bytes) (pods : PodRoleSet)
      → Ends
          (Quiet d names)
          (Next (next_update revision pods) d names)
          (update_stale env revision pods)
  unfolding update_stale
  update_stale-Ends revision pods =
      let stay = left-Next (next_update revision pods) in
      Ends-if _ _ _ (Ends-Keeps _ (Keeps-pure nothing) stay) (
        Ends-bind _ _ (wait_for_ready_status-Quiet env)
          (λ r.
            Ends-if (is_zero r) _ _ (update_replicas-Ends revision pods.primary pods.replicas)
              (Ends-Keeps _ (Keeps-pure r) stay))
          stay)

-- What a pass deletes beyond `names`: nothing, or of the Pods that it listed the one that `next` names.
abbrev pub DeletesNext :
    (Bytes → PodRoleSet → Option Pod) → Env → State → List Bytes → State → Type 0
DeletesNext next env s names t =
    (deletions t.trace ≡ names)
    ⊎ ((revision : Bytes) × (pods : PodRoleSet) × (p : Pod) × (should_reconcile_updates env.meta
            s.doltdb
          ≡ true)
        × ((get_revision env s).0 ≡ ok revision)
        × ((get_pods_by_role env (get_revision env s).1).0 ≡ ok (inr pods))
        × (next revision pods ≡ some p)
        × (deletions t.trace ≡ p.name ∷ names))

Next-result :
    (o : Option Pod) (d : DoltDb) (names : List Bytes) (t : State)
    → Next o d names t
    → (deletions t.trace ≡ names)
      ⊎ ((p : Pod) × (o ≡ some p) × (deletions t.trace ≡ p.name ∷ names))
Next-result none d names t h = inl h.1
Next-result (some p) d names t (inl h) = inl h.1
Next-result (some p) d names t (inr h) = inr (p, refl, h.1)

module _ (next : Bytes → PodRoleSet → Option Pod) (env : Env) (s : State) (names : List Bytes)
    (ends : (revision : Bytes) (pods : PodRoleSet)
      → Ends
          (Quiet s.doltdb names)
          (Next (next revision pods) s.doltdb names)
          (update_stale env revision pods)) where
  with_pods_deletes :
      (revision : Bytes) (x : Result (Requeue ⊎ PodRoleSet)) (u : State)
      → should_reconcile_updates env.meta s.doltdb ≡ true
      → (get_revision env s).0 ≡ ok revision
      → (get_pods_by_role env (get_revision env s).1).0 ≡ x
      → Quiet s.doltdb names u
      → DeletesNext next env s names (resume x (with_pods env revision) fail u).1
  unfolding pure fail
  with_pods_deletes revision (err e) u should found pods q = inl q.1
  with_pods_deletes revision (ok (inl r)) u should found pods q = inl q.1
  with_pods_deletes revision (ok (inr set)) u should found pods q =
      elim (Next-result (next revision set) s.doltdb names _ ((ends revision set).at u q)) [
        | inl h ↦ inl h
        | inr (p, e, h) ↦ inr (revision, set, p, should, found, pods, e, h)
      ]

  with_revision_deletes :
      (x : Result Bytes)
      → should_reconcile_updates env.meta s.doltdb ≡ true
      → (get_revision env s).0 ≡ x
      → Quiet s.doltdb names (get_revision env s).1
      → DeletesNext next env s names (resume x (with_revision env) fail (get_revision env s).1).1
  unfolding pure fail ◌>>=◌
  with_revision_deletes (err e) should found q = inl q.1
  with_revision_deletes (ok []) should found q = inl q.1
  with_revision_deletes (ok (c ∷ revision)) should found q =
      with_pods_deletes (c ∷ revision) _ _ should found refl
        ((get_pods_by_role-Quiet env).at (get_revision env s).1 q)

  pub guarded_deletes :
      (b : Bool)
      → should_reconcile_updates env.meta s.doltdb ≡ b
      → Quiet s.doltdb names s
      → DeletesNext next env s names
          ((if b then get_revision env >>= with_revision env else pure nothing) s).1
  unfolding ◌>>=◌
  guarded_deletes true should q =
      with_revision_deletes _ should refl ((get_revision-Quiet env).at s q)
  guarded_deletes false should q = inl q.1

-- One pass of the updater, whatever the cluster answers, asks to delete no Pod, or exactly one; then
-- the updates are the operator's to make in the state that the DoltDB is in, and the Pod is the next
-- to be updated of those that the pass listed: the first stale replica in the order of
-- `getPodsByRole`, or the primary if it is stale and no replica is.
pub reconcile_updates-DeletesNext :
    (env : Env) (s : State)
    → DeletesNext next_update env s (deletions s.trace) (reconcile_updates env s).1
unfolding reconcile_updates ◌>>=◌
reconcile_updates-DeletesNext env s =
    guarded_deletes next_update env s (deletions s.trace) (update_stale-Ends env) _ refl
      (refl, refl)
