-- ===== src/Status/Monotone.antt =====
-- The status reconciler keeps a primary that is set, and never lowers the epoch.
use doltdb_operator.Prelude.{
  ℕ, zero, suc, ◌≤◌, Bool, true, false, List, [], ◌∷◌, Option, none, some, Bytes, ◌≡◌, refl,
  if◌then◌else◌, ◌||◌, arith, is_some,
}
use mathlib.Core.Path.{subst, sym}
use doltdb_operator.Effect.{nothing, Result, ok, Op, ◌>>=◌}
use doltdb_operator.Effect.Keeps.{Keeps, keeps_rules, Keeps-bind, Keeps-pure, Keeps-fail}
use doltdb_operator.Api.DoltDb.{DoltDb, ReplicationStatus, replication_enabled}
use doltdb_operator.Api.Status.{raise_epoch, update_replication_epoch}
use doltdb_operator.Dolt.{DbState}
use doltdb_operator.Cluster.{Env, State, Event, Trace, call, set_doltdb}
use doltdb_operator.Conditions.{StsStatus}
use doltdb_operator.Replication.Calls.{
  Stable, get_db_states_kept, new_client_set_kept, healthy_kept,
}
use doltdb_operator.Update.{get_revision}
use doltdb_operator.Storage.{with_conditions_of}
use doltdb_operator.Api.Condition.{Condition}
use doltdb_operator.Replication.Safety.{echoed}
use doltdb_operator.Status.{
  Found, raise_if, replace_if, default_primary, change_doltdb, change_status, look_at, look_from,
  get_replication_status_and_epoch, db_states_if, updated_conditions, count_updated,
  with_update_revision, set_updated_condition, set_status, send_status, reconcile_status,
}

-- The primary is at `i`, and the epoch is at least `n`.
abbrev pub Settled : ℕ → ℕ → DoltDb → Type 0
Settled i n d =
    (d.status.current_primary_pod_index ≡ some i)
    × ((m : ℕ) × (d.status.replication_epoch ≡ some m) × (n ≤ m))

raised_least :
    (o : Option ℕ) (n m e : ℕ)
    → o ≡ some m
    → n ≤ m
    → (k : ℕ) × (some (raise_epoch o e) ≡ some k) × (n ≤ k)
raised_least none n m e h l = cc
raised_least (some c) n m e h l =
    (raise_epoch (some c) e, refl, (let q : c ≡ m = cc in ground arith))

then_branch : {A : Type 0} (b : Bool) (x y : A) → b ≡ true → (if b then x else y) ≡ x
then_branch true x y h = refl
then_branch false x y h = cc

is_set :
    (o p : Option ℕ) (name : Option Bytes)
    → o ≡ p
    → is_some p ≡ true
    → (is_some o || is_some name) ≡ true
is_set none p name h k = cc
is_set (some i) p name h k = refl

module _ (i n : ℕ) where
  raise_if-Settled :
      (o : Option ℕ) (d : DoltDb) → Settled i n d → Settled i n (change_status (raise_if o) d)
  unfolding update_replication_epoch
  raise_if-Settled none d h = h
  raise_if-Settled (some e) d (set, (m, is, least)) =
      (set, raised_least d.status.replication_epoch n m e is least)

  replace_if-Settled :
      (o : Option ReplicationStatus) (d : DoltDb)
      → Settled i n d
      → Settled i n (change_status (replace_if o) d)
  replace_if-Settled none d h = h
  replace_if-Settled (some r) d h = h

  default_primary-Settled : (d : DoltDb) → Settled i n d → Settled i n (default_primary d)
  unfolding default_primary
  default_primary-Settled d h =
      subst (Settled i n)
        (sym (
          then_branch _ d _
            (is_set d.status.current_primary_pod_index (some i) d.status.current_primary h.0 refl)))
        h

  abbrev Kept : {A : Type 0} → Op State A → Type 0
  Kept m = Keeps (λ s. Settled i n s.doltdb) m

  Settled-stable : Stable (λ s. Settled i n s.doltdb)
  unfolding call
  Settled-stable = record {
    of_call = λ e answer h. record { at = λ s q. q };
    of_clients = λ s c q. q;
  }

  change-Kept :
      (f : DoltDb → DoltDb)
      → ((d : DoltDb) → Settled i n d → Settled i n (f d))
      → Kept (change_doltdb f)
  unfolding ◌>>=◌ set_doltdb
  change-Kept f h = record { at = λ s q. h s.doltdb q }

  call-Kept : {A : Type 0} (e : Event) (answer : Trace → Result A) → Kept (call e answer)
  unfolding call
  call-Kept e answer = record { at = λ s q. q }

  -- The changes of the conditions leave the rest of the status.
  conditions-Kept :
      (f : DoltDb → List Condition → List Condition)
      → Kept (change_doltdb (λ d. change_status (with_conditions_of (f d)) d))
  conditions-Kept f = change-Kept _ (λ d h. h)

  module _ (env : Env) where
    look_at-Kept : (j : ℕ) (state : DbState) (found : Found) → Kept (look_at env j state found)
    unfolding look_at
    look_at-Kept j state found = search (keeps_rules, healthy_kept Settled-stable env) depth 12

    look_from-Kept :
        (j k : ℕ) (states : List DbState) (found : Found) → Kept (look_from env j k states found)
    unfolding look_from
    look_from-Kept j zero states found = Keeps-pure found
    look_from-Kept j (suc k) [] found = Keeps-fail _
    look_from-Kept j (suc k) (state ∷ rest) found =
        Keeps-bind _ _ (look_at-Kept j state found) (λ next. look_from-Kept (suc j) k rest next)

    found-Kept : (states : List DbState) → Kept (get_replication_status_and_epoch env states)
    unfolding get_replication_status_and_epoch
    found-Kept states = search (keeps_rules, look_from-Kept) depth 12

    revision-Kept : (revision : Bytes) → Kept (with_update_revision env revision)
    revision-Kept [] = Keeps-pure tt
    revision-Kept (c ∷ revision) = Keeps-bind _ _ (search (keeps_rules, call-Kept) depth 6) (λ pods.
        conditions-Kept
          (λ d. updated_conditions env.meta d.spec.replicas (count_updated (c ∷ revision) pods)))

    updated-Kept : Kept (set_updated_condition env)
    unfolding set_updated_condition get_revision
    updated-Kept = Keeps-bind _ _ (search (keeps_rules, call-Kept) depth 6) revision-Kept

    set_status-Kept :
        (sts : StsStatus) (r : Option ReplicationStatus) (e : Option ℕ)
        → Kept (set_status env sts r e)
    unfolding set_status
    set_status-Kept sts r e = Keeps-bind _ _ (change-Kept _ (λ d h. h)) (λ _.
        Keeps-bind _ _ (change-Kept _ default_primary-Settled) (λ _.
          Keeps-bind _ _ (change-Kept _ (raise_if-Settled e)) (λ _.
            Keeps-bind _ _ (change-Kept _ (replace_if-Settled r))
              (λ _. search (keeps_rules, updated-Kept, conditions-Kept) depth 12))))

    states-Kept : (b : Bool) → Kept (db_states_if env b)
    states-Kept true =
        Keeps-bind _ _ (new_client_set_kept Settled-stable env)
          (λ _. get_db_states_kept Settled-stable env)
    states-Kept false = Keeps-pure []

    module _ (echoes : (t : Trace) (d d' : DoltDb) → env.patch_status t d ≡ ok d' → d' ≡ d) where
      send-Kept : Kept (send_status env)
      unfolding send_status ◌>>=◌ call
      send-Kept = record {
        at = λ s q.
            let t = Event.patched_status s.doltdb.status ∷ s.trace in
            echoed (λ u. Settled i n u.doltdb) (env.patch_status t s.doltdb)
              (record s { trace = t }) q (λ d' e. echoes t s.doltdb d' e);
      }

      reconcile-Kept : Kept (reconcile_status env)
      unfolding reconcile_status
      reconcile-Kept = Keeps-bind _ _ (search (keeps_rules, call-Kept) depth 8) (λ sts.
          Keeps-bind _ _ (search keeps_rules) (λ d.
            Keeps-bind _ _ (states-Kept (replication_enabled d)) (λ states.
              Keeps-bind _ _ (found-Kept states) (λ found.
                Keeps-bind _ _ (set_status-Kept sts found.0 found.1)
                  (λ _. Keeps-bind _ _ send-Kept (λ _. Keeps-pure nothing))))))

-- Where a patch of the status answers with the object patched, a pass of the status reconciler, even
-- one that fails, keeps the index of a primary that is set and does not lower the epoch that is
-- recorded, whatever the servers report.
pub reconcile_status-Settled :
    (env : Env) (i n : ℕ) (s : State)
    → ((t : Trace) (d d' : DoltDb) → env.patch_status t d ≡ ok d' → d' ≡ d)
    → s.doltdb.status.current_primary_pod_index ≡ some i
    → s.doltdb.status.replication_epoch ≡ some n
    → Settled i n (reconcile_status env s).1.doltdb
reconcile_status-Settled env i n s echoes set epoch =
    (reconcile-Kept i n env echoes).at s (set, (n, epoch, ground arith))
