-- ===== src/ServerConfig/Mesh.antt =====
-- The remotes of each server are the other servers.
use doltdb_operator.Prelude.{
  ℕ, zero, suc, Bool, true, false, List, ◌∷◌, Bytes, ◌≡◌, ◌≢◌, ◌⊎◌, ◌↔◌, inl, inr, sym, ap, ◌∙◌,
  ◌==◌, ◌≤◌, ◌<◌, ◌+◌, ◌^◌, map, In, Bool-cases, arith, if◌then◌else◌,
}
use mathlib.Core.Path.{subst}
use doltdb_operator.Api.DoltDb.{DoltDb}
use doltdb_operator.Naming.{pod_name}
use doltdb_operator.Naming.RoundTrip.{pod_name-injective}
use doltdb_operator.ServerConfig.{StandbyRemote, remote_to, remotes_from, generate_standby_remotes}

abbrev pub remote_names : List StandbyRemote → List Bytes
remote_names rs = map (λ (r : StandbyRemote). r.name) rs

equal : (a b : ℕ) → (a == b) ≡ true → b ≡ a
equal a b e = ground arith

module _ (d : DoltDb) (port current i : ℕ) where
  abbrev IsListed : ℕ → ℕ → Type 0
  IsListed first n = In (pod_name d.name i) (remote_names (remotes_from d port current first n))

  list_step :
      (first n : ℕ)
      → first ≤ i
      → i < first + suc n
      → i ≢ current
      → (suc first ≤ i → IsListed (suc first) n)
      → IsListed first (suc n)
  unfolding remotes_from
  list_step first n low high other rest =
      by_cases (Bool-cases (first == current)) (Bool-cases (first == i))
    where
      by_cases :
          ((first == current) ≡ true) ⊎ ((first == current) ≡ false)
          → ((first == i) ≡ true) ⊎ ((first == i) ≡ false)
          → IsListed first (suc n)
      by_cases (inl e) (inl f) = absurd (other (equal first i f ∙ sym (equal first current e)))
      by_cases (inl e) (inr f) = rw e (rest (ground arith))
      by_cases (inr e) (inl f) = rw e (inl (ap (pod_name d.name) (equal first i f)))
      by_cases (inr e) (inr f) = rw e (inr (rest (ground arith)))

  listed : (first n : ℕ) → first ≤ i → i < first + n → i ≢ current → IsListed first n
  listed first zero low high other = absurd (omega arith)
  listed first (suc n) low high other =
      list_step first n low high other (λ next. listed (suc first) n next (omega arith) other)

  -- The first remote is that of the index, or the index is listed further on.
  at_first_or_later :
      (first n : ℕ)
      → IsListed first (suc n)
      → ((pod_name d.name i ≡ pod_name d.name first) × (first ≢ current)) ⊎ IsListed (suc first) n
  unfolding remotes_from
  at_first_or_later first n h = by_case (Bool-cases (first == current))
    where
      names_if : Bool → List Bytes
      names_if b =
          let rest = remotes_from d port current (suc first) n in
          remote_names (if b then rest else remote_to d port first ∷ rest)

      by_case :
          ((first == current) ≡ true) ⊎ ((first == current) ≡ false)
          → ((pod_name d.name i ≡ pod_name d.name first) × (first ≢ current))
            ⊎ IsListed (suc first) n
      by_case (inl e) = inr (subst (λ b. In (pod_name d.name i) (names_if b)) e h)
      by_case (inr e) = elim (subst (λ b. In (pod_name d.name i) (names_if b)) e h) [
        | inl k ↦ inl (k, ground arith)
        | inr k ↦ inr k
      ]

  only_others :
      (first n : ℕ)
      → i < 2 ^ 63
      → first + n ≤ 2 ^ 63
      → IsListed first n
      → (i < first + n) × (i ≢ current)
  unfolding remotes_from
  only_others first zero small bound h = absurd h
  only_others first (suc n) small bound h = elim (at_first_or_later first n h) [
    | inl k ↦
        let same = pod_name-injective d.name i first small (omega arith) k.0 in
        (omega arith, λ e. k.1 (sym same ∙ e))
    | inr k ↦
        let (high, other) = only_others (suc first) n small (omega arith) k in (omega arith, other)
  ]

-- The standby remotes that a server is given are named after the Pods of the other indices below the
-- number of replicas, and after no other.
pub remotes_are_the_others :
    (d : DoltDb) (port current i : ℕ)
    → d.spec.replicas ≤ 2 ^ 63
    → i < 2 ^ 63
    → In (pod_name d.name i) (remote_names (generate_standby_remotes current d port))
      ↔ ((i < d.spec.replicas) × (i ≢ current))
unfolding generate_standby_remotes
remotes_are_the_others d port current i bound small = (
  (λ h.
      let (high, other) = only_others d port current i 0 d.spec.replicas small (omega arith) h in
      (omega arith, other)),
  λ h. listed d port current i 0 d.spec.replicas (omega arith) (omega arith) h.1,
)
