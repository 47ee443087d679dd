-- ===== src/Backup/Lifecycle.antt =====
-- The phases of a Backup as an abstract machine, and the reconciler as one of its implementations.
use doltdb_operator.Prelude.{◌≡◌, ◌⊎◌, inl, inr, refl, sym}
use mathlib.Core.Path.{subst}
use doltdb_operator.Backup.{Phase, unset, pending, running, completed, failed}

-- A step that the machine may take.
pub data Step (p q : Phase) : Type 0 where
  create : p ≡ unset → q ≡ pending → Step p q
  start : p ≡ pending → q ≡ running → Step p q
  retry : p ≡ running → q ≡ running → Step p q
  finish : p ≡ running → q ≡ completed → Step p q
  abandon : (p ≡ pending) ⊎ (p ≡ running) → q ≡ failed → Step p q

pub data Reach (p : Phase) : Phase → Type 0 where
  here : Reach p p
  next : {q r : Phase} → Reach p q → Step q r → Reach p r

abbrev pub IsOver : Phase → Type 0
IsOver p = (p ≡ completed) ⊎ (p ≡ failed)

no-Step : {p q : Phase} → IsOver p → Step p q → ⊥
no-Step (inl e) (create f g) = cc
no-Step (inl e) (start f g) = cc
no-Step (inl e) (retry f g) = cc
no-Step (inl e) (finish f g) = cc
no-Step (inl e) (abandon (inl f) g) = cc
no-Step (inl e) (abandon (inr f) g) = cc
no-Step (inr e) (create f g) = cc
no-Step (inr e) (start f g) = cc
no-Step (inr e) (retry f g) = cc
no-Step (inr e) (finish f g) = cc
no-Step (inr e) (abandon (inl f) g) = cc
no-Step (inr e) (abandon (inr f) g) = cc

-- A phase that is over is never left.
pub over_stays : {p q : Phase} → IsOver p → Reach p q → q ≡ p
over_stays o here = refl
over_stays o (next r s) = absurd (no-Step (subst IsOver (sym (over_stays o r)) o) s)
