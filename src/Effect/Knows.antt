-- ===== src/Effect/Knows.antt =====
-- Rules for what is known of a step's result when the next step runs.
use doltdb_operator.Prelude.{◌≡◌, refl, String}
use doltdb_operator.Effect.{
  Error, Result, ok, err, Op, pure, fail, message, resume, ◌>>=◌, attempt, wrap,
}
use doltdb_operator.Effect.Keeps.{Keeps, Keeps-fail}

module _ {S A B : Type 0} {P : S → Type 0} where
  resumed :
      (r : Result A) (f : A → Op S B) (g : Error → Op S B) (t : S)
      → P t
      → ((a : A) → r ≡ ok a → Keeps P (f a))
      → ((e : Error) → r ≡ err e → Keeps P (g e))
      → P (resume r f g t).1
  resumed (ok a) f g t p kf kg = (kf a refl).at t p
  resumed (err e) f g t p kf kg = (kg e refl).at t p

  -- The handlers of a step may use what the step returned.
  pub Keeps-learn_attempt :
      (m : Op S A) (f : A → Op S B) (g : Error → Op S B)
      → Keeps P m
      → ((s : S) (a : A) → (m s).0 ≡ ok a → Keeps P (f a))
      → ((s : S) (e : Error) → (m s).0 ≡ err e → Keeps P (g e))
      → Keeps P (attempt m f g)
  unfolding attempt
  Keeps-learn_attempt m f g km kf kg = record {
    at = λ s p. resumed (m s).0 f g (m s).1 (km.at s p) (kf s) (kg s);
  }

  pub Keeps-learn :
      (m : Op S A) (f : A → Op S B)
      → Keeps P m
      → ((s : S) (a : A) → (m s).0 ≡ ok a → Keeps P (f a))
      → Keeps P (m >>= f)
  unfolding ◌>>=◌
  Keeps-learn m f km kf = record {
    at = λ s p. resumed (m s).0 f fail (m s).1 (km.at s p) (kf s) (λ e _. Keeps-fail e);
  }

module _ {S A : Type 0} where
  -- A wrapped step returns what the step returned.
  pub wrap_returned :
      (text : String) (m : Op S A) (s : S) (a : A) → (wrap text m s).0 ≡ ok a → (m s).0 ≡ ok a
  unfolding attempt pure fail
  wrap_returned text m s a h = returned (m s).0 (m s).1 h
    where
      returned :
          (r : Result A) (t : S) → (resume r pure (λ e. fail (message text)) t).0 ≡ ok a → r ≡ ok a
      returned (ok b) t h = h
      returned (err e) t h = cc

  -- And it leaves the state that the step left.
  pub wrap_state : (text : String) (m : Op S A) (s : S) → (wrap text m s).1 ≡ (m s).1
  unfolding attempt pure fail
  wrap_state text m s = left (m s).0 (m s).1
    where
      left : (r : Result A) (t : S) → (resume r pure (λ e. fail (message text)) t).1 ≡ t
      left (ok a) t = refl
      left (err e) t = refl
