-- ===== src/Prelude/Decimal.antt =====
-- `strings.Split` at one byte, `fmt`'s `%d` and `strconv.Atoi` on bytes.
use Prim.Native.Nat.{ℕ, zero, suc, ◌+◌, ◌-◌, ◌*◌, ◌/◌, ◌%◌, ◌^◌, ◌≤◌, ◌<◌}
use mathlib.Core.Path.{◌≡◌, refl, ap, ◌∙◌}
use mathlib.Core.Logic.{◌≢◌, inl, inr}
use mathlib.Core.Bool.{◌&&◌}
use mathlib.Core.Option.{Option, none, some}
use mathlib.Core.List.{List, [], ◌∷◌, ◌++◌}
use native.Mathlib.Omega.{arith}
use doltdb_operator.Prelude.Tests.{ltb, leb, ◌==◌, if◌then◌else◌, ==_iff, Bool-cases, lt→ltb}
use doltdb_operator.Prelude.Lists.{All}
use doltdb_operator.Prelude.Text.{Bytes}

abbrev cons_head : ℕ → List Bytes → List Bytes
cons_head c [] = (c ∷ []) ∷ []
cons_head c (p ∷ ps) = (c ∷ p) ∷ ps

unfoldable pub split : ℕ → Bytes → List Bytes
split sep [] = [] ∷ []
split sep (c ∷ s) = let rest = split sep s in if c == sep then [] ∷ rest else cons_head c rest

unfoldable pub last_part : List Bytes → Option Bytes
last_part [] = none
last_part (p ∷ []) = some p
last_part (p ∷ q ∷ ps) = last_part (q ∷ ps)

cons_head-append :
    (c : ℕ) (xs ys : List Bytes) → xs ≢ [] → cons_head c xs ++ ys ≡ cons_head c (xs ++ ys)
cons_head-append c [] ys h = absurd (h refl)
cons_head-append c (x ∷ xs) ys h = refl

split-ne-nil : (sep : ℕ) (s : Bytes) → split sep s ≢ []
unfolding split
split-ne-nil sep [] = λ e. cc
split-ne-nil sep (c ∷ s) = ground (arith, split-ne-nil sep s)

-- A separator ends a part.
split-append : (sep : ℕ) (s t : Bytes) → split sep (s ++ sep ∷ t) ≡ split sep s ++ split sep t
unfolding split
split-append sep [] t = ground arith
split-append sep (c ∷ s) t = ground (
  arith,
  split-append sep s t,
  cons_head-append c (split sep s) (split sep t),
  split-ne-nil sep s,
)

last_part-append : (ps qs : List Bytes) → qs ≢ [] → last_part (ps ++ qs) ≡ last_part qs
unfolding last_part
last_part-append [] qs h = refl
last_part-append (p ∷ []) [] h = absurd (h refl)
last_part-append (p ∷ []) (q ∷ qs) h = refl
last_part-append (p ∷ p' ∷ ps) qs h = last_part-append (p' ∷ ps) qs h

-- No part of a text without the separator but the text itself.
split-Lacks : (sep : ℕ) (s : Bytes) → All (λ c. c ≢ sep) s → split sep s ≡ s ∷ []
unfolding split
split-Lacks sep [] h = refl
split-Lacks sep (c ∷ s) h = ground (arith, split-Lacks sep s h.1)

-- What follows the last separator is the last part.
pub last_part-split :
    (sep : ℕ) (s t : Bytes) → All (λ c. c ≢ sep) t → last_part (split sep (s ++ sep ∷ t)) ≡ some t
unfolding last_part
last_part-split sep s t h =
    ap last_part (split-append sep s t)
    ∙ last_part-append (split sep s) (split sep t) (split-ne-nil sep t)
    ∙ ap last_part (split-Lacks sep t h)

-- `n / 10` is less than `n`, so `n + 1` rounds print `n`.
digits : ℕ → ℕ → Bytes
digits zero n = []
digits (suc f) n =
    let front = digits f (n / 10) in if ltb n 10 then (48 + n) ∷ [] else front ++ (48 + n % 10) ∷ []

-- `%d` of a number that is not negative.
unfoldable pub decimal : ℕ → Bytes
unfolding digits
decimal n = digits (suc n) n

scan : Bytes → ℕ → Option ℕ
scan [] n = some n
scan (c ∷ s) n = if leb 48 c && leb c 57 then scan s (n * 10 + (c - 48)) else none

abbrev fits : Option ℕ → Option ℕ
fits none = none
fits (some n) = if ltb n (2 ^ 63) then some n else none

abbrev scan_digits : Bytes → Option ℕ
scan_digits [] = none
scan_digits (c ∷ s) = fits (scan (c ∷ s) 0)

-- `strconv.Atoi` of a text that does not begin with `-`: an optional `+`, then digits, in int64.
unfoldable pub atoi : Bytes → Option ℕ
unfolding scan
atoi [] = none
atoi (c ∷ s) = if c == b'+' then scan_digits s else scan_digits (c ∷ s)

abbrev IsDigit : ℕ → Type 0
IsDigit c = (48 ≤ c) × (c ≤ 57)

All-snoc : (s : Bytes) (c : ℕ) → All IsDigit s → IsDigit c → All IsDigit (s ++ c ∷ [])
All-snoc [] c h p = (p, tt)
All-snoc (d ∷ s) c h p = (h.0, All-snoc s c h.1 p)

digits-IsDigit : (f n : ℕ) → All IsDigit (digits f n)
unfolding digits
digits-IsDigit zero n = tt
digits-IsDigit (suc f) n = elim (Bool-cases (ltb n 10)) [
  | inl small ↦ rw small ((omega arith, ground arith), tt)
  | inr large ↦ rw large (
      All-snoc (digits f (n / 10)) (48 + n % 10) (digits-IsDigit f (n / 10))
        (omega arith, omega arith))
]

All-Lacks_dash : (s : Bytes) → All IsDigit s → All (λ c. c ≢ b'-') s
All-Lacks_dash [] h = tt
All-Lacks_dash (c ∷ s) h = (omega arith, All-Lacks_dash s h.1)

-- No printed number holds a dash.
pub decimal-Lacks_dash : (n : ℕ) → All (λ c. c ≢ b'-') (decimal n)
unfolding decimal
decimal-Lacks_dash n = All-Lacks_dash (digits (suc n) n) (digits-IsDigit (suc n) n)

scan-snoc :
    (s : Bytes) (c n m : ℕ)
    → IsDigit c
    → scan s n ≡ some m
    → scan (s ++ c ∷ []) n ≡ some (m * 10 + (c - 48))
unfolding scan
scan-snoc [] c n m d h = ground arith
scan-snoc (x ∷ s) c n m d h = ground (arith, scan-snoc s c (n * 10 + (x - 48)) m)

scan-digits : (f n : ℕ) → n < f → scan (digits f n) 0 ≡ some n
unfolding digits
scan-digits zero n h = elim h [ ]
scan-digits (suc f) n h = elim (Bool-cases (ltb n 10)) [
  | inl small ↦ rw small (unfold scan in ground arith)
  | inr large ↦ rw large (
      scan-snoc (digits f (n / 10)) (48 + n % 10) 0 (n / 10) (omega arith, omega arith)
        (scan-digits f (n / 10) (ground arith))
      ∙ ap some (omega arith))
]

append-ne-nil : (s : Bytes) (c : ℕ) → s ++ c ∷ [] ≢ []
append-ne-nil [] c = λ e. cc
append-ne-nil (d ∷ s) c = λ e. cc

digits-ne-nil : (f n : ℕ) → digits (suc f) n ≢ []
unfolding digits
digits-ne-nil f n = elim (Bool-cases (ltb n 10)) [
  | inl small ↦ rw small (λ e. cc)
  | inr large ↦ rw large (append-ne-nil (digits f (n / 10)) (48 + n % 10))
]

atoi-eq-scan : (s : Bytes) → All IsDigit s → s ≢ [] → atoi s ≡ fits (scan s 0)
unfolding atoi
atoi-eq-scan [] h ne = absurd (ne refl)
atoi-eq-scan (c ∷ s) h ne = elim (Bool-cases (c == b'+')) [
  | inl e ↦ absurd (omega (arith, (==_iff c b'+').0 e))
  | inr e ↦ rw e
]

-- `Atoi` reads back what `%d` prints, for a number in the range of an int.
pub atoi-decimal : (n : ℕ) → n < 2 ^ 63 → atoi (decimal n) ≡ some n
unfolding decimal
atoi-decimal n h =
    atoi-eq-scan (digits (suc n) n) (digits-IsDigit (suc n) n) (digits-ne-nil n n)
    ∙ ap fits (scan-digits (suc n) n (omega arith))
    ∙ ground (arith, lt→ltb n (2 ^ 63))
