-- ===== src/Storage/Growth.antt =====
-- pkg/controller/storage/storage.go: what a pass asks of the claims.
use doltdb_operator.Prelude.{
  ℕ, Bool, true, false, List, [], ◌∷◌, ◌++◌, Option, none, some, ◌≡◌, refl, ◌∙◌, ap, arith, ◌==◌,
  ◌<◌, ltb, inl, inr, Bool-cases, All, not, if◌then◌else◌,
}
use doltdb_operator.Effect.{
  Requeue, nothing, Result, ok, err, message, Op, pure, fail, resume, ◌>>=◌, wrap, is_zero,
}
use doltdb_operator.Effect.Keeps.{
  Keeps, keeps_rules, Keeps-bind, Keeps-attempt, Keeps-pure, Keeps-fail, Keeps-modify, Keeps-if,
}
use doltdb_operator.Api.DoltDb.{DoltDb, DoltDbStatus}
use doltdb_operator.Api.Status.{is_waiting_for_storage_resize}
use doltdb_operator.Cluster.{
  Env, State, StatefulSet, Pvc, Event, patched_pvc, Trace, call, set_doltdb, patch_status,
}
use doltdb_operator.Storage.{
  SizeChange, no_change, grow_to, compare_sizes, change_size, reconcile_sizes, reconcile_storage,
  should_reconcile_storage, patch_pvcs, resize_in_use_pvcs, wait_for_storage_resize,
  resize_stateful_set, grow,
}

-- A decision to grow to a size is one for the desired size, from a known smaller one.
compare_sizes-never_shrinks :
    (existing desired : Option ℕ) (n : ℕ)
    → compare_sizes existing desired ≡ ok (grow_to n)
    → (e : ℕ) × (existing ≡ some e) × (desired ≡ some n) × (e < n)
unfolding compare_sizes
compare_sizes-never_shrinks none desired n h = cc
compare_sizes-never_shrinks (some e) none n h = cc
compare_sizes-never_shrinks (some e) (some d) n h = elim (Bool-cases (d == e)) [
  | inl same ↦ absurd (refused (rw same at h))
  | inr other ↦ elim (Bool-cases (ltb d e)) [
    | inl less ↦ absurd (shrunk (rw (other, less) at h))
    | inr more ↦ (e, refl, grown (rw (other, more) at h), ground arith)
  ]
]
  where
    refused : ok no_change ≡ ok (grow_to n) → ⊥
    refused e = cc

    shrunk :
        ◌≡◌ {A = Result SizeChange}
          (err (message "cannot decrease storage size from '%s' to '%s'"))
          (ok (grow_to n))
        → ⊥
    shrunk e = cc

    grown : ok (grow_to d) ≡ ok (grow_to n) → some d ≡ some n
    grown e = cc

-- The sizes that the claims were patched to.
abbrev pub requests : Trace → List ℕ
requests [] = []
requests (patched_pvc sent ∷ t) = sent.request ∷ requests t
requests (_ ∷ t) = requests t

abbrev patches_pvc : Event → Bool
patches_pvc (patched_pvc sent) = true
patches_pvc _ = false

requests-quiet : (e : Event) (t : Trace) → patches_pvc e ≡ false → requests (e ∷ t) ≡ requests t
requests-quiet (patched_pvc sent) t h = cc
requests-quiet _ t h = refl

-- The size is the desired one, and the existing one is known and smaller.
abbrev pub IsGrowth : Option ℕ → Option ℕ → ℕ → Type 0
IsGrowth existing desired n = (e : ℕ) × (existing ≡ some e) × (desired ≡ some n) × (e < n)

abbrev pub Grown : Option ℕ → Option ℕ → List ℕ → List ℕ → Type 0
Grown existing desired before now =
    (new : List ℕ) × (now ≡ new ++ before) × All (IsGrowth existing desired) new

module _ (env : Env) (reconcile_stateful_set : Op State Requeue)
    (no_claims : (s : State) → requests (reconcile_stateful_set s).1.trace ≡ requests s.trace)
    (existing desired : Option ℕ) (before : List ℕ) where
  abbrev Growing : State → Type 0
  Growing s = Grown existing desired before (requests s.trace)

  call-Growing :
      {A : Type 0} (e : Event) (answer : Trace → Result A)
      → patches_pvc e ≡ false
      → Keeps Growing (call e answer)
  unfolding call
  call-Growing e answer h = record {
    at = λ s (new, same, all). (new, requests-quiet e s.trace h ∙ same, all);
  }

  patched-Growing :
      {A : Type 0} (sent : Pvc) (answer : Trace → Result A)
      → IsGrowth existing desired sent.request
      → Keeps Growing (call (patched_pvc sent) answer)
  unfolding call
  patched-Growing sent answer h = record {
    at = λ s (new, same, all). (sent.request ∷ new, ap (λ l. sent.request ∷ l) same, (h, all));
  }

  set-Growing : (d : DoltDb) → Keeps Growing (set_doltdb d)
  unfolding set_doltdb
  set-Growing d = Keeps-modify _ (λ s h. h)

  status-Growing : (f : DoltDbStatus → DoltDbStatus) → Keeps Growing (patch_status env f)
  unfolding patch_status
  status-Growing f = search (keeps_rules, call-Growing, set-Growing, refl) depth 12

  marked-Growing :
      (f : DoltDbStatus → DoltDbStatus)
      → Keeps Growing (wrap "error patching status: %v" (patch_status env f))
  marked-Growing f = Keeps-attempt _ _ _ (status-Growing f) (λ a. Keeps-pure a) (λ e. Keeps-fail _)

  stateful_set-Growing : Keeps Growing reconcile_stateful_set
  stateful_set-Growing = record { at = λ s (new, same, all). (new, no_claims s ∙ same, all) }

  pvcs-Growing :
      (size : ℕ) (ps : List Pvc)
      → IsGrowth existing desired size
      → Keeps Growing (patch_pvcs env size ps)
  unfolding patch_pvcs
  pvcs-Growing size [] h = Keeps-pure tt
  pvcs-Growing size (p ∷ ps) h =
      Keeps-bind _ _
        (Keeps-attempt _ _ _
          (patched-Growing (record p { request = size })
            (λ t. env.patch_pvc t (record p { request = size })) h)
          (λ a. Keeps-pure a) (λ e. Keeps-fail _))
        (λ _. pvcs-Growing size ps h)

  in_use-Growing :
      (size : ℕ) → IsGrowth existing desired size → Keeps Growing (resize_in_use_pvcs env size)
  unfolding resize_in_use_pvcs
  in_use-Growing size h =
      let claims = λ (ps : List Pvc). pvcs-Growing size ps h in
      search (keeps_rules, call-Growing, claims, refl) depth 14

  wait-Growing : Keeps Growing (wait_for_storage_resize env)
  unfolding wait_for_storage_resize
  wait-Growing = search (keeps_rules, call-Growing, status-Growing, refl) depth 20

  resize-Growing : Keeps Growing (resize_stateful_set env reconcile_stateful_set)
  unfolding resize_stateful_set
  resize-Growing = search (keeps_rules, call-Growing, stateful_set-Growing, refl) depth 10

  grow-Growing :
      (size : ℕ)
      → IsGrowth existing desired size
      → Keeps Growing (grow env reconcile_stateful_set size)
  unfolding grow
  grow-Growing size h = Keeps-bind _ _ (marked-Growing _) (λ _.
      Keeps-bind _ _ (in_use-Growing size h) (λ r.
        Keeps-if (is_zero r) _ _
          (Keeps-bind _ _ resize-Growing (λ q.
            Keeps-if (is_zero q) _ _ (Keeps-bind _ _ (marked-Growing _) (λ _. wait-Growing))
              (Keeps-pure q)))
          (Keeps-pure r)))

  change-Growing :
      (r : Result SizeChange) (t : State)
      → compare_sizes existing desired ≡ r
      → Growing t
      → Growing (resume r (change_size env reconcile_stateful_set) fail t).1
  unfolding pure fail
  change-Growing (ok no_change) t e h = h
  change-Growing (ok (grow_to n)) t e h =
      (grow-Growing n (compare_sizes-never_shrinks existing desired n e)).at t h
  change-Growing (err x) t e h = h

-- Where the StatefulSet is answered, and its own reconciler patches no claim, a pass of the storage
-- reconciler, whether it fails or not, patches claims only to the size of the spec, and only where
-- the StatefulSet has a known smaller size.
pub reconcile_storage-Grown :
    (env : Env) (reconcile_stateful_set : Op State Requeue) (sts : StatefulSet) (s : State)
    → ((t : State) → requests (reconcile_stateful_set t).1.trace ≡ requests t.trace)
    → ((t : Trace) → env.get_stateful_set t ≡ ok sts)
    → Grown sts.data_volume_size s.doltdb.spec.storage.size
        (requests s.trace)
        (requests (reconcile_storage env reconcile_stateful_set s).1.trace)
unfolding reconcile_storage ◌>>=◌ call pure
reconcile_storage-Grown env rss sts s no_claims got =
    decided (should_reconcile_storage env.meta s.doltdb)
      (is_waiting_for_storage_resize env.meta s.doltdb)
  where
    sizes :
        Grown sts.data_volume_size s.doltdb.spec.storage.size
          (requests s.trace)
          (requests (reconcile_sizes env rss s).1.trace)
    sizes = rw got (
        change-Growing env rss no_claims sts.data_volume_size s.doltdb.spec.storage.size
          (requests s.trace) _ _ refl ([], refl, tt))

    decided :
        (b w : Bool)
        → Grown sts.data_volume_size s.doltdb.spec.storage.size (requests s.trace) (
            requests
              ((if not b
                  then pure nothing
                  else (if w then wait_for_storage_resize env else reconcile_sizes env rss))
                s).1.trace)
    decided false w = ([], refl, tt)
    decided true true =
        (wait-Growing env rss no_claims sts.data_volume_size s.doltdb.spec.storage.size
            (requests s.trace)).at
          s ([], refl, tt)
    decided true false = sizes
