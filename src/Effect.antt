-- ===== src/Effect.antt =====
-- Errors as values, and operations that change a state and may fail. What was done before a
-- failure stays done, so the state comes back beside the error.
pub mod Keeps
pub mod Ends
pub mod Steps
pub mod Gives
pub mod Knows
pub mod Runs
use doltdb_operator.Prelude.{
  ℕ, String, Bool, true, false, ◌≡◌, arith, List, [], ◌∷◌, ◌==◌, ◌&&◌, if◌then◌else◌,
}

-- A Go error: the kinds that the code tells apart, and `message` for any other, which keeps the
-- format string of `fmt.Errorf` or `errors.New` without its arguments.
pub data Error : Type 0 where
  not_found conflict already_exists : Error
  skip_phase annotation_not_found no_healthy_instances read_only : Error
  -- A nil pointer dereference.
  panic : Error
  message : String → Error

pub data Result (A : Type 0) : Type 0 where
  ok : A → Result A
  err : Error → Result A

-- `apierrors.IsNotFound`, which looks through `%w` and not through `%v`.
abbrev pub is_not_found : Error → Bool
is_not_found not_found = true
is_not_found _ = false

-- `ctrl.Result`, its delay in seconds.
pub record Requeue : Type 0 where
  pub requeue : Bool
  pub requeue_after : ℕ

-- `ctrl.Result{}`, `{Requeue: true}` and `{RequeueAfter: …}`.
abbrev pub nothing : Requeue
nothing = record { requeue = false; requeue_after = 0 }

abbrev pub again : Requeue
again = record { requeue = true; requeue_after = 0 }

abbrev pub after : ℕ → Requeue
after seconds = record { requeue = false; requeue_after = seconds }

-- `Result.IsZero`.
abbrev pub is_zero : Requeue → Bool
is_zero r = if r.requeue then false else r.requeue_after == 0

abbrev pub Op : Type 0 → Type 0 → Type 0
Op S A = S → Result A × S

module _ {S A : Type 0} where
  unfoldable pub pure : A → Op S A
  pure a s = (ok a, s)

  unfoldable pub fail : Error → Op S A
  fail e s = (err e, s)

  unfoldable pub lift : Result A → Op S A
  lift r s = (r, s)

  unfoldable pub gets : (S → A) → Op S A
  gets f s = (ok (f s), s)

unfoldable pub modify : {S : Type 0} → (S → S) → Op S (Unit {0})
modify f s = (ok tt, f s)

module _ {S A B : Type 0} where
  abbrev pub resume : Result A → (A → Op S B) → (Error → Op S B) → Op S B
  resume (ok a) f g s = f a s
  resume (err e) f g s = g e s

  infixl 10 ◌>>=◌ ◌>>◌
  -- Opening this opens the ways to build an operation too.
  unfoldable pub ◌>>=◌ : Op S A → (A → Op S B) → Op S B
  unfolding pure fail lift gets modify
  ◌>>=◌ m f s = let (r, s') = m s in resume r f fail s'

  abbrev pub ◌>>◌ : Op S A → Op S B → Op S B
  m >> n = m >>= λ _. n

  -- `if v, err := m(); err != nil { g } else { f }`.
  unfoldable pub attempt : Op S A → (A → Op S B) → (Error → Op S B) → Op S B
  unfolding pure fail lift gets modify
  attempt m f g s = let (r, s') = m s in resume r f g s'

-- `if err := m(); err != nil { return fmt.Errorf("…: %v", err) }`.
abbrev pub wrap : {S A : Type 0} → String → Op S A → Op S A
wrap text m = attempt m pure λ _. fail (message text)

-- `if result, err := m(); !result.IsZero() || err != nil { return result, err }`, then `n`.
abbrev pub stop_or : {S : Type 0} → Op S Requeue → Op S Requeue → Op S Requeue
stop_or m n = m >>= λ r. if is_zero r then n else pure r
