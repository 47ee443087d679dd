-- ===== src/Replication/Epochs.antt =====
-- The replication reconciler configures the servers for the primary and the epoch of the status.
use doltdb_operator.Prelude.{
  ℕ, zero, suc, [], ◌∷◌, ◌++◌, Bool, true, false, Option, none, some, String, ◌≡◌, ◌≢◌, ◌⊎◌, refl,
  ◌∙◌, ap, if◌then◌else◌, arith, ◌==◌, All, inl, inr,
}
use mathlib.Core.Path.{subst, sym}
use doltdb_operator.Effect.{nothing, Result, Op, ◌>>◌, wrap}
use doltdb_operator.Effect.Keeps.{
  Keeps, Keeps-bind, Keeps-pure, Keeps-fail, Keeps-attempt, Keeps-lift, Keeps-if,
}
use doltdb_operator.Api.DoltDb.{DoltDb}
use doltdb_operator.Api.Status.{is_switching_primary}
use doltdb_operator.Dolt.{Role, primary, standby}
use doltdb_operator.Cluster.{Env, State, Event, Trace, call}
use doltdb_operator.Cluster.Traces.{assumed_roles}
use doltdb_operator.Cluster.Roles.{assumed_roles-quiet}
use doltdb_operator.Sql.{assume_role, client_for_index}
use doltdb_operator.Replication.{configure_primary, configure_replica, current_primary_client}
use doltdb_operator.Replication.Calls.{
  Stable, Keeps-now, then_remove_client_kept, current_primary_client_kept, client_for_index_kept,
}
use doltdb_operator.Replication.Reconcile.{
  configure_in_pod, reconcile_replication_in_pod, configure_if, configure_pods, configure_all,
  reconcile_replication,
}
use doltdb_operator.Replication.Safety.{Changes}

-- The role that a server with an index should be asked to assume.
abbrev pub Due : ℕ → ℕ → ℕ × Role × ℕ → Type 0
Due current epoch (i, role, e) =
    (((role ≡ primary) × (i ≡ current)) ⊎ ((role ≡ standby) × (i ≢ current))) × (e ≡ epoch)

-- The changes since `changes` are all due.
abbrev pub DueSince : ℕ → ℕ → Changes → Changes → Type 0
DueSince current epoch changes now =
    (new : Changes) × (now ≡ new ++ changes) × All (Due current epoch) new

abbrev Confined : DoltDb → ℕ → ℕ → Changes → State → Type 0
Confined d current epoch changes s =
    (s.doltdb ≡ d) × DueSince current epoch changes (assumed_roles s.trace)

module _ (d : DoltDb) (current epoch : ℕ) (changes : Changes) where
  abbrev Kept : {A : Type 0} → Op State A → Type 0
  Kept m = Keeps (Confined d current epoch changes) m

  Confined-stable : Stable (Confined d current epoch changes)
  unfolding call
  Confined-stable = record {
    of_call = λ e answer h. record {
      at = λ s (q, (new, same, due)). (q, (new, assumed_roles-quiet e s.trace h ∙ same, due));
    };
    of_clients = λ s c q. q;
  }

  module _ (env : Env) where
    assume-Kept :
        (i : ℕ) (role : Role)
        → Due current epoch (i, role, epoch)
        → Kept (assume_role env i role epoch)
    unfolding assume_role
    assume-Kept i role h =
        Keeps-bind _ _ (asked (λ t. env.call_assume_role t i role epoch)) (λ row. Keeps-lift _)
      where
        asked :
            (answer : Trace → Result (Option ℕ))
            → Kept (call (Event.assumed_role i role epoch) answer)
        asked answer = record {
          at = λ s (q, (new, same, due)).
              (q, ((i, role, epoch) ∷ new, ap (λ l. (i, role, epoch) ∷ l) same, (h, due)));
        }

    wrapped : {A : Type 0} (text : String) (m : Op State A) → Kept m → Kept (wrap text m)
    wrapped text m k = Keeps-attempt _ _ _ k (λ a. Keeps-pure a) (λ e. Keeps-fail _)

    primary-Kept : (i : ℕ) → i ≡ current → Kept (configure_primary env i epoch)
    unfolding configure_primary
    primary-Kept i h = wrapped _ _ (assume-Kept i primary (inl (refl, h), refl))

    replica-Kept : (i : ℕ) → i ≢ current → Kept (configure_replica env i epoch)
    unfolding configure_replica
    replica-Kept i h = wrapped _ _ (assume-Kept i standby (inr (refl, h), refl))

    -- The branch that `configure_in_pod` takes.
    configured :
        (i : ℕ) (b : Bool)
        → (current == i) ≡ b
        → Kept (
            if b
            then (wrap "error getting current primary client: %v" (current_primary_client env)
                >> configure_primary env i epoch)
            else (wrap "error getting replica client: %v" (client_for_index env i)
                >> configure_replica env i epoch))
    configured i true h =
        Keeps-bind _ _ (wrapped _ _ (current_primary_client_kept Confined-stable env))
          (λ _. primary-Kept i (ground arith))
    configured i false h =
        Keeps-bind _ _ (wrapped _ _ (client_for_index_kept Confined-stable env i))
          (λ _. replica-Kept i (λ e. ground arith))

    in_pod-Kept : (i : ℕ) (o : Option ℕ) → o ≡ some current → Kept (configure_in_pod env i epoch o)
    in_pod-Kept i none h = cc
    in_pod-Kept i (some c) h =
        subst (λ o. Kept (configure_in_pod env i epoch o)) (sym h)
          (then_remove_client_kept Confined-stable env i _ (configured i (current == i) refl))

    module _ (set : d.status.current_primary_pod_index ≡ some current) where
      reconcile_in_pod-Kept : (i : ℕ) → Kept (reconcile_replication_in_pod env i epoch)
      unfolding reconcile_replication_in_pod
      reconcile_in_pod-Kept i = Keeps-now _ (λ d' s p e.
          (in_pod-Kept i _
              (ap (λ (x : DoltDb). x.status.current_primary_pod_index) (sym e ∙ p.0) ∙ set)).at
            s p)

      configure_if-Kept : (b : Bool) (i : ℕ) → Kept (configure_if env b i epoch)
      configure_if-Kept true i = wrapped _ _ (reconcile_in_pod-Kept i)
      configure_if-Kept false i = Keeps-pure tt

      pods-Kept : (i n : ℕ) → Kept (configure_pods env epoch i n)
      unfolding configure_pods
      pods-Kept i zero = Keeps-pure tt
      pods-Kept i (suc n) = Keeps-now _ (λ d' s p e.
          (Keeps-bind _ _ (configure_if-Kept _ i) (λ _. Keeps-now _ (λ d'' t q r.
              (Keeps-bind _ _ (configure_if-Kept _ i) (λ _. pods-Kept (suc i) n)).at t q))).at
            s p)

      all-Kept :
          (d' : DoltDb) (o o' : Option ℕ)
          → o ≡ some current
          → o' ≡ some epoch
          → Kept (configure_all env d' o o')
      all-Kept d' none o' h h' = cc
      all-Kept d' (some c) none h h' = cc
      all-Kept d' (some c) (some e) h h' =
          subst (λ o. Kept (configure_all env d' (some c) o)) (sym h')
            (Keeps-bind _ _ (pods-Kept 0 d'.spec.replicas) (λ _. Keeps-pure nothing))

      module _ (epoch_set : d.status.replication_epoch ≡ some epoch) where
        replication-Kept : Kept (reconcile_replication env)
        unfolding reconcile_replication
        replication-Kept = Keeps-now _ (λ d' s p e.
            (Keeps-if (is_switching_primary env.meta d') _ _ (Keeps-pure nothing) (
                all-Kept d' _ _
                  (ap (λ (x : DoltDb). x.status.current_primary_pod_index) (sym e ∙ p.0) ∙ set)
                  (ap (λ (x : DoltDb). x.status.replication_epoch) (sym e ∙ p.0) ∙ epoch_set))).at
              s p)

-- Whatever the servers answer, the reconciler of replication asks each server that it configures for
-- its due role: the one at the primary index of the status to be the primary, any other to be a
-- standby, at the epoch of the status, which it does not raise; and it leaves the object as it is.
pub reconcile_replication_due :
    (env : Env) (current epoch : ℕ) (s : State)
    → s.doltdb.status.current_primary_pod_index ≡ some current
    → s.doltdb.status.replication_epoch ≡ some epoch
    → ((reconcile_replication env s).1.doltdb ≡ s.doltdb)
      × DueSince current epoch
          (assumed_roles s.trace)
          (assumed_roles (reconcile_replication env s).1.trace)
reconcile_replication_due env current epoch s set epoch_set =
    (replication-Kept s.doltdb current epoch (assumed_roles s.trace) env set epoch_set).at s
      (refl, ([], refl, tt))
