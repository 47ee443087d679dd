-- ===== src/Effect/Keeps.antt =====
-- Invariants of operations: one rule for each way to build an operation.
use doltdb_operator.Prelude.{Bool, true, false, if◌then◌else◌}
use doltdb_operator.Effect.{
  Error, Result, ok, err, Op, pure, fail, lift, gets, modify, resume, ◌>>=◌, attempt,
}

-- `m` keeps `P`, whether it returns or fails.
pub record Keeps {S A : Type 0} (P : S → Type 0) (m : Op S A) : Type 0 where
  pub at : (s : S) → P s → P (m s).1

module _ {S A : Type 0} {P : S → Type 0} where
  pub Keeps-gets : (look : S → A) → Keeps P (gets look)
  unfolding gets
  Keeps-gets look = record { at = λ state kept. kept }

  pub Keeps-lift : (outcome : Result A) → Keeps P (lift outcome)
  unfolding lift
  Keeps-lift outcome = record { at = λ state kept. kept }

  pub Keeps-fail : (e : Error) → Keeps P (fail {A = A} e)
  unfolding fail
  Keeps-fail e = record { at = λ state kept. kept }

  pub Keeps-pure : (value : A) → Keeps P (pure value)
  unfolding pure
  Keeps-pure value = record { at = λ state kept. kept }

  pub Keeps-if :
      (b : Bool) (first second : Op S A)
      → Keeps P first
      → Keeps P second
      → Keeps P (if b then first else second)
  Keeps-if true first second kept_first kept_second = kept_first
  Keeps-if false first second kept_first kept_second = kept_second

pub Keeps-modify :
    {S : Type 0} {P : S → Type 0} (f : S → S) → ((s : S) → P s → P (f s)) → Keeps P (modify f)
unfolding modify
Keeps-modify f h = record { at = h }

module _ {S A B : Type 0} {P : S → Type 0} where
  Keeps-resume :
      (r : Result A) (f : A → Op S B) (g : Error → Op S B)
      → ((a : A) → Keeps P (f a))
      → ((e : Error) → Keeps P (g e))
      → Keeps P (resume r f g)
  Keeps-resume (ok a) f g kf kg = record { at = (kf a).at }
  Keeps-resume (err e) f g kf kg = record { at = (kg e).at }

  pub Keeps-attempt :
      (m : Op S A) (f : A → Op S B) (g : Error → Op S B)
      → Keeps P m
      → ((a : A) → Keeps P (f a))
      → ((e : Error) → Keeps P (g e))
      → Keeps P (attempt m f g)
  unfolding attempt
  Keeps-attempt m f g km kf kg = record {
    at = λ s h. let (r, s') = m s in (Keeps-resume r f g kf kg).at s' (km.at s h);
  }

  pub Keeps-bind :
      (step : Op S A) (rest : A → Op S B)
      → Keeps P step
      → ((value : A) → Keeps P (rest value))
      → Keeps P (step >>= rest)
  unfolding ◌>>=◌
  Keeps-bind step rest kept_step kept_rest = record {
    at = λ state kept.
        (Keeps-resume (step state).0 rest fail kept_rest Keeps-fail).at (step state).1
          (kept_step.at state kept);
  }

pub ruleset keeps_rules =
    (Keeps-pure, Keeps-fail, Keeps-lift, Keeps-gets, Keeps-if, Keeps-attempt, Keeps-bind)
