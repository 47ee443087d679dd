-- ===== src/Effect/Ends.antt =====
-- Operations that take a state where `P` holds to one where `Q` does: steps that keep `P`, then one
-- that reaches `Q`.
use doltdb_operator.Prelude.{Bool, true, false, if◌then◌else◌}
use doltdb_operator.Effect.{Error, Result, ok, err, Op, fail, resume, ◌>>=◌, attempt}
use doltdb_operator.Effect.Keeps.{Keeps}

pub record Ends {S A : Type 0} (P Q : S → Type 0) (m : Op S A) : Type 0 where
  pub at : (s : S) → P s → Q (m s).1

module _ {S A : Type 0} {P Q : S → Type 0} where
  pub Ends-Keeps : (m : Op S A) → Keeps P m → ((s : S) → P s → Q s) → Ends P Q m
  Ends-Keeps m k h = record { at = λ s p. h (m s).1 (k.at s p) }

  pub Ends-if : (b : Bool) (m n : Op S A) → Ends P Q m → Ends P Q n → Ends P Q (if b then m else n)
  Ends-if true m n em en = em
  Ends-if false m n em en = en

module _ {S A B : Type 0} {P Q : S → Type 0} where
  Ends-resume :
      (r : Result A) (f : A → Op S B) (g : Error → Op S B)
      → ((a : A) → Ends P Q (f a))
      → ((e : Error) → Ends P Q (g e))
      → Ends P Q (resume r f g)
  Ends-resume (ok a) f g ef eg = record { at = (ef a).at }
  Ends-resume (err e) f g ef eg = record { at = (eg e).at }

  pub Ends-attempt :
      (m : Op S A) (f : A → Op S B) (g : Error → Op S B)
      → Keeps P m
      → ((a : A) → Ends P Q (f a))
      → ((e : Error) → Ends P Q (g e))
      → Ends P Q (attempt m f g)
  unfolding attempt
  Ends-attempt m f g km ef eg = record {
    at = λ s h. let (r, s') = m s in (Ends-resume r f g ef eg).at s' (km.at s h);
  }

  pub Ends-bind :
      (m : Op S A) (f : A → Op S B)
      → Keeps P m
      → ((a : A) → Ends P Q (f a))
      → ((s : S) → P s → Q s)
      → Ends P Q (m >>= f)
  unfolding ◌>>=◌
  Ends-bind m f km ef h = record {
    at = λ s p.
        let (r, s') = m s in
        (Ends-resume r f fail ef (λ e. record { at = λ t q. h t q })).at s' (km.at s p);
  }

  -- The step that reaches `Q` comes first, and the rest keeps it.
  pub Ends-then :
      (m : Op S A) (f : A → Op S B) → Ends P Q m → ((a : A) → Keeps Q (f a)) → Ends P Q (m >>= f)
  unfolding ◌>>=◌
  Ends-then m f em kf = record {
    at = λ s p. let (r, s') = m s in (Keeps-after r f kf).at s' (em.at s p);
  }
    where
      Keeps-after :
          (r : Result A) (f : A → Op S B) → ((a : A) → Keeps Q (f a)) → Keeps Q (resume r f fail)
      Keeps-after (ok a) f k = record { at = (k a).at }
      Keeps-after (err e) f k = record { at = λ t q. q }

  pub Ends-attempt_first :
      (m : Op S A) (f : A → Op S B) (g : Error → Op S B)
      → Ends P Q m
      → ((a : A) → Keeps Q (f a))
      → ((e : Error) → Keeps Q (g e))
      → Ends P Q (attempt m f g)
  unfolding attempt
  Ends-attempt_first m f g em kf kg = record {
    at = λ s p. let (r, s') = m s in (Keeps-both r f g kf kg).at s' (em.at s p);
  }
    where
      Keeps-both :
          (r : Result A) (f : A → Op S B) (g : Error → Op S B)
          → ((a : A) → Keeps Q (f a))
          → ((e : Error) → Keeps Q (g e))
          → Keeps Q (resume r f g)
      Keeps-both (ok a) f g kf kg = record { at = (kf a).at }
      Keeps-both (err e) f g kf kg = record { at = (kg e).at }
