-- ===== src/Dolt/NextPrimary.antt =====
-- `PickNextPrimary` chooses a freshest standby.
use doltdb_operator.Prelude.{
  ℕ, suc, ◌≤◌, List, [], ◌∷◌, none, some, ◌≡◌, refl, sym, ◌∙◌, arith, ◌⊎◌, inl, inr, ◌≢◌,
}
use mathlib.Core.Path.{subst}
use doltdb_operator.Dolt.{
  standby, DbState, Pick, oldest_update, consider, pick_from, chosen, pick_next_primary,
}

-- `state` stands at index `j` of a list whose first index is `i`.
abbrev pub At : ℕ → DbState → ℕ → List DbState → Type 0
At j state i [] = ⊥
At j state i (s ∷ rest) = ((j ≡ i) × (state ≡ s)) ⊎ At j state (suc i) rest

abbrev pub freshness : DbState → ℕ
freshness s = oldest_update s.status

-- What one round of the loop does to the choice.
record Round (i : ℕ) (s : DbState) (p c : Pick) : Type 0 where
  unset_is_zero : c.next_primary ≡ none → c.updated ≡ 0
  grows : p.updated ≤ c.updated
  origin :
      ((chosen c ≡ chosen p) × (c.updated ≡ p.updated))
      ⊎ ((chosen c ≡ some i) × (s.role ≡ standby) × (freshness s ≡ c.updated))
  covers : s.role ≡ standby → freshness s ≤ c.updated
  chooses : s.role ≡ standby → chosen c ≢ none
  still_chosen : chosen p ≢ none → chosen c ≢ none

consider-Round :
    (i : ℕ) (s : DbState) (p : Pick)
    → (p.next_primary ≡ none → p.updated ≡ 0)
    → Round i s p (consider i s p)
unfolding consider
consider-Round i s p h = ground arith

pick_from_grows :
    (i : ℕ) (p : Pick) (states : List DbState)
    → (p.next_primary ≡ none → p.updated ≡ 0)
    → p.updated ≤ (pick_from i p states).updated
unfolding pick_from
pick_from_grows i p [] h = omega arith
pick_from_grows i p (s ∷ rest) h =
    let r = consider-Round i s p h in
    omega (arith, r.grows, pick_from_grows (suc i) (consider i s p) rest r.unset_is_zero)

-- Every standby of the list is at most as fresh as the choice.
pick_from_covers :
    (i : ℕ) (p : Pick) (states : List DbState)
    → (p.next_primary ≡ none → p.updated ≡ 0)
    → (j : ℕ) (s : DbState) → At j s i states
    → s.role ≡ standby
    → freshness s ≤ (pick_from i p states).updated
unfolding pick_from
pick_from_covers i p [] h j s at e = elim at [ ]
pick_from_covers i p (t ∷ rest) h j s (inl at) e =
    let r = consider-Round i t p h in
    rw at.1 (
      omega (
        arith,
        r.covers (subst (λ x. x.role ≡ standby) at.1 e),
        pick_from_grows (suc i) (consider i t p) rest r.unset_is_zero,
      ))
pick_from_covers i p (t ∷ rest) h j s (inr at) e =
    pick_from_covers (suc i) (consider i t p) rest (consider-Round i t p h).unset_is_zero j s at e

-- The choice is the one that the loop began with, or a standby of the list.
pick_from_origin :
    (i : ℕ) (p : Pick) (states : List DbState)
    → (p.next_primary ≡ none → p.updated ≡ 0)
    → let c = pick_from i p states in
      ((chosen c ≡ chosen p) × (c.updated ≡ p.updated))
      ⊎ ((j : ℕ) × (s : DbState) × (chosen c ≡ some j)
          × At j s i states
          × (s.role ≡ standby)
          × (freshness s ≡ c.updated))
unfolding pick_from
pick_from_origin i p [] h = inl (refl, refl)
pick_from_origin i p (t ∷ rest) h =
    let r = consider-Round i t p h in
    elim (pick_from_origin (suc i) (consider i t p) rest r.unset_is_zero) [
      | inl same ↦ elim r.origin [
        | inl old ↦ inl (same.0 ∙ old.0, same.1 ∙ old.1)
        | inr new ↦ inr (i, t, same.0 ∙ new.0, inl (refl, refl), new.1, new.2 ∙ sym same.1)
      ]
      | inr (j, s, e, at, role, fresh) ↦ inr (j, s, e, inr at, role, fresh)
    ]

pick_from_still_chosen :
    (i : ℕ) (p : Pick) (states : List DbState)
    → (p.next_primary ≡ none → p.updated ≡ 0)
    → chosen p ≢ none
    → chosen (pick_from i p states) ≢ none
unfolding pick_from
pick_from_still_chosen i p [] h c = c
pick_from_still_chosen i p (t ∷ rest) h c =
    let r = consider-Round i t p h in
    pick_from_still_chosen (suc i) (consider i t p) rest r.unset_is_zero (r.still_chosen c)

pick_from_chooses :
    (i : ℕ) (p : Pick) (states : List DbState)
    → (p.next_primary ≡ none → p.updated ≡ 0)
    → (j : ℕ) (s : DbState) → At j s i states
    → s.role ≡ standby
    → chosen (pick_from i p states) ≢ none
unfolding pick_from
pick_from_chooses i p [] h j s at e = elim at [ ]
pick_from_chooses i p (t ∷ rest) h j s (inl at) e =
    let r = consider-Round i t p h in
    pick_from_still_chosen (suc i) (consider i t p) rest r.unset_is_zero
      (r.chooses (subst (λ x. x.role ≡ standby) at.1 e))
pick_from_chooses i p (t ∷ rest) h j s (inr at) e =
    pick_from_chooses (suc i) (consider i t p) rest (consider-Round i t p h).unset_is_zero j s at e

picked_freshest :
    (states : List DbState)
    → ((j : ℕ)
        → pick_next_primary states ≡ some j
        → (s : DbState) × At j s 0 states
          × (s.role ≡ standby)
          × ((k : ℕ) (t : DbState)
              → At k t 0 states
              → t.role ≡ standby
              → freshness t ≤ freshness s))
      × ((k : ℕ) (t : DbState)
          → At k t 0 states
          → t.role ≡ standby
          → pick_next_primary states ≢ none)
unfolding pick_next_primary
picked_freshest states = (
  λ j e. elim (pick_from_origin 0 start states (λ _. refl)) [
    | inl same ↦ cc
    | inr (i, s, e', at, role, fresh) ↦
        let q : i ≡ j = cc in
        (
          s,
          subst (λ n. At n s 0 states) q at,
          role,
          λ k t seen r. rw fresh (pick_from_covers 0 start states (λ _. refl) k t seen r),
        )
  ],
  λ k t at role. pick_from_chooses 0 start states (λ _. refl) k t at role,
)
  where
    start : Pick
    start = record { first_standby = none; next_primary = none; updated = 0 }

-- A standby that `PickNextPrimary` answers with, by its index, is at least as fresh as any other
-- standby, freshness being the time of the oldest update.
pub pick_next_primary_freshest :
    (states : List DbState) (j k : ℕ) (t : DbState)
    → pick_next_primary states ≡ some j
    → At k t 0 states
    → t.role ≡ standby
    → (s : DbState) × At j s 0 states × (s.role ≡ standby) × (freshness t ≤ freshness s)
pick_next_primary_freshest states j k t picked seen role =
    let (s, at, is, fresh) = (picked_freshest states).0 j picked in (s, at, is, fresh k t seen role)
