-- ===== src/Labels/Due.antt =====
-- The role labels follow the primary of the status.
use doltdb_operator.Prelude.{
  ℕ, Bool, true, false, List, [], ◌∷◌, ◌++◌, Option, none, some, Bytes, codes, ◌≡◌, ◌≢◌, ◌⊎◌, inl,
  inr, refl, ◌∙◌, ap, if◌then◌else◌, not, arith, All, ◌==◌,
}
use mathlib.Core.Path.{subst, sym}
use doltdb_operator.Effect.{Requeue, nothing, again, after, Result, ok, err, Op, ◌>>=◌}
use doltdb_operator.Effect.Keeps.{
  Keeps, keeps_rules, Keeps-bind, Keeps-pure, Keeps-fail, Keeps-attempt, Keeps-if,
}
use doltdb_operator.Api.DoltDb.{DoltDb, replication_enabled}
use doltdb_operator.Api.Pod.{Pod, label, set_label}
use doltdb_operator.Dolt.{primary, standby}
use doltdb_operator.PodRoles.{role_label, role_text, patch_labels, label-with_role, with_role}
use doltdb_operator.Naming.{pod_name, pod_index}
use doltdb_operator.Cluster.{Env, State, Event, Trace, call}
use doltdb_operator.Replication.Calls.{Keeps-now}
use doltdb_operator.Labels.{
  pod_name_label, with_pod_labels, role_at, label_indexed, label_placed, label_pods,
  clean_pod_role_labels, label_all, reconcile_pod_labels, patch_or_requeue,
}

-- The Pods that were sent with a role label: the name of each and the text of that label.
abbrev pub role_labels : Trace → List (Bytes × Option Bytes)
role_labels [] = []
role_labels (Event.labelled_pod sent ∷ t) =
    (sent.name, label role_label sent.labels) ∷ role_labels t
role_labels (_ ∷ t) = role_labels t

-- The label that a Pod should have: primary at the index of the status, standby at another.
abbrev pub DueLabel : ℕ → Bytes × Option Bytes → Type 0
DueLabel current (name, role) =
    ((role ≡ some (codes "primary")) × (pod_index name ≡ ok current))
    ⊎ ((role ≡ some (codes "standby")) × ((i : ℕ) × (pod_index name ≡ ok i) × (i ≢ current)))

abbrev pub DueLabels : ℕ → List (Bytes × Option Bytes) → List (Bytes × Option Bytes) → Type 0
DueLabels current before now =
    (new : List (Bytes × Option Bytes)) × (now ≡ new ++ before) × All (DueLabel current) new

abbrev Labelled : DoltDb → ℕ → List (Bytes × Option Bytes) → State → Type 0
Labelled d current before s = (s.doltdb ≡ d) × DueLabels current before (role_labels s.trace)

same_index : (i j : ℕ) → (i == j) ≡ true → i ≡ j
same_index i j h = ground arith

other_index : (i j : ℕ) → (i == j) ≡ false → i ≢ j
other_index i j h e = ground arith

module _ (current i : ℕ) (name : Bytes) (indexed : pod_index name ≡ ok i) where
  due_of :
      (b : Bool)
      → (i == current) ≡ b
      → DueLabel current (name, some (role_text (if b then primary else standby)))
  due_of true h = inl (refl, indexed ∙ ap ok (same_index i current h))
  due_of false h = inr (refl, (i, indexed, other_index i current h))

  due : DueLabel current (name, some (role_text (role_at i current)))
  due = due_of (i == current) refl

module _ (d : DoltDb) (current : ℕ) (before : List (Bytes × Option Bytes)) where
  abbrev Kept : {A : Type 0} → Op State A → Type 0
  Kept m = Keeps (Labelled d current before) m

  listed-Kept : {A : Type 0} (answer : Trace → Result A) → Kept (call Event.listed_pods answer)
  unfolding call
  listed-Kept answer = record { at = λ s q. q }

  labelled-Kept :
      (env : Env) (sent : Pod)
      → DueLabel current (sent.name, label role_label sent.labels)
      → Kept (patch_labels env sent)
  unfolding patch_labels call
  labelled-Kept env sent h = record {
    at = λ s (q, (new, same, due)). (
      q,
      (
        (sent.name, label role_label sent.labels) ∷ new,
        ap (λ l. (sent.name, label role_label sent.labels) ∷ l) same,
        (h, due),
      ),
    );
  }

  -- The Pod that is sent has the due label.
  sent-Kept :
      (env : Env) (i : ℕ) (p : Pod)
      → pod_index p.name ≡ ok i
      → Kept (patch_labels env (with_pod_labels d i (role_at i current) p))
  unfolding with_pod_labels with_role
  sent-Kept env i p h = labelled-Kept env _ (
      subst (λ r. DueLabel current (p.name, r))
        (sym (
          label-with_role (role_at i current)
            (record p { labels = set_label pod_name_label (pod_name d.name i) p.labels })))
        (due current i p.name h))

  module _ (env : Env) where
    patch-Kept :
        (patch : Op State (Unit {0})) (rest : Op State Requeue)
        → Kept patch
        → Kept rest
        → Kept (patch_or_requeue env patch rest)
    patch-Kept patch rest k r =
        Keeps-attempt _ _ _ k (λ _. r) (λ e. Keeps-if _ _ _ (Keeps-pure again) (Keeps-fail e))

    indexed-Kept :
        (r : Result ℕ) (p : Pod) (rest : Op State Requeue)
        → pod_index p.name ≡ r
        → Kept rest
        → Kept (label_indexed env d current r p rest)
    indexed-Kept (err e) p rest h k = Keeps-fail _
    indexed-Kept (ok i) p rest h k = Keeps-if _ _ _ (patch-Kept _ _ (sent-Kept env i p h) k) k

    placed-Kept :
        (o : Option ℕ) (p : Pod) (rest : Op State Requeue)
        → o ≡ some current
        → Kept rest
        → Kept (label_placed env d o p rest)
    placed-Kept none p rest h k = cc
    placed-Kept (some c) p rest h k =
        subst (λ o. Kept (label_placed env d o p rest)) (sym h)
          (Keeps-if _ _ _ k (indexed-Kept (pod_index p.name) p rest refl k))

    module _ (set : d.status.current_primary_pod_index ≡ some current) where
      pods-Kept : (ps : List Pod) → Kept (label_pods env ps)
      unfolding label_pods
      pods-Kept [] = Keeps-pure nothing
      pods-Kept (p ∷ ps) = Keeps-now _ (λ d' s q e.
          subst
            (λ x.
              Labelled d current before
                (label_placed env x x.status.current_primary_pod_index p (label_pods env ps) s).1)
            (sym (sym e ∙ q.0)) ((placed-Kept _ p _ set (pods-Kept ps)).at s q))

      all-Kept : (o : Option ℕ) → Kept (label_all env o)
      all-Kept none = Keeps-pure (after 1)
      all-Kept (some c) = Keeps-bind _ _ (search (keeps_rules, listed-Kept) depth 6) pods-Kept

-- With replication, each Pod that a pass over the labels sends to the server has its due role label,
-- whatever the cluster answers and whether or not the pass fails: primary for a Pod whose index is
-- that of the status, standby for a Pod of another index; and it leaves the object as it is.
pub reconcile_pod_labels-DueLabels :
    (env : Env) (current : ℕ) (s : State)
    → replication_enabled s.doltdb ≡ true
    → s.doltdb.status.current_primary_pod_index ≡ some current
    → ((reconcile_pod_labels env s).1.doltdb ≡ s.doltdb)
      × DueLabels current (role_labels s.trace) (role_labels (reconcile_pod_labels env s).1.trace)
unfolding reconcile_pod_labels ◌>>=◌
reconcile_pod_labels-DueLabels env current s enabled set =
    decided (replication_enabled s.doltdb) enabled
  where
    decided :
        (b : Bool)
        → b ≡ true
        → Labelled s.doltdb current
            (role_labels s.trace)
            ((if not b
                then clean_pod_role_labels env
                else label_all env s.doltdb.status.current_primary_pod_index)
              s).1
    decided true h =
        (all-Kept s.doltdb current (role_labels s.trace) env set _).at s (refl, ([], refl, tt))
    decided false h = cc
