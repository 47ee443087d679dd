-- ===== src/Effect/Gives.antt =====
-- What an operation returns, and the errors that it fails with.
use doltdb_operator.Effect.{Error, Result, ok, err, Op, pure, fail, lift, resume, ◌>>=◌, attempt}
use doltdb_operator.Effect.Keeps.{Keeps}

module _ {A : Type 0} (Q : A → Type 0) (E : Error → Type 0) where
  abbrev pub Good : Result A → Type 0
  Good (ok a) = Q a
  Good (err e) = E e

-- A result of `m` satisfies `Q`, an error `E`.
pub record Gives {S A : Type 0} (Q : A → Type 0) (E : Error → Type 0) (m : Op S A) : Type 0 where
  pub at : (s : S) → Good Q E (m s).0

abbrev pub Any : Error → Type 0
Any e = Unit

-- `m` fails.
abbrev pub Fails : {S A : Type 0} → Op S A → Type 0
Fails m = Gives (λ _. ⊥) Any m

module _ {S A : Type 0} {Q : A → Type 0} {E : Error → Type 0} where
  pub Gives-fail : (e : Error) → E e → Gives {S = S} Q E (fail e)
  unfolding fail
  Gives-fail e h = record { at = λ s. h }

  pub Gives-pure : (a : A) → Q a → Gives {S = S} Q E (pure a)
  unfolding pure
  Gives-pure a h = record { at = λ s. h }

  pub Gives-lift : (r : Result A) → Good Q E r → Gives {S = S} Q E (lift r)
  unfolding lift
  Gives-lift r h = record { at = λ s. h }

module _ {S A : Type 0} where
  pub Gives-Any : (m : Op S A) → Gives (λ _. Unit) Any m
  Gives-Any m = record { at = λ s. any_good (m s).0 }
    where
      any_good : (r : Result A) → Good (λ _. Unit) Any r
      any_good (ok a) = tt
      any_good (err e) = tt

module _ {S A B : Type 0} {Q : A → Type 0} {E F : Error → Type 0} {R : B → Type 0} where
  Good-resume :
      (r : Result A) (f : A → Op S B) (g : Error → Op S B) (t : S)
      → Good Q E r
      → ((a : A) → Q a → Gives R F (f a))
      → ((e : Error) → E e → Gives R F (g e))
      → Good R F (resume r f g t).0
  Good-resume (ok a) f g t h kf kg = (kf a h).at t
  Good-resume (err e) f g t h kf kg = (kg e h).at t

  pub Gives-attempt :
      (m : Op S A) (f : A → Op S B) (g : Error → Op S B)
      → Gives Q E m
      → ((a : A) → Q a → Gives R F (f a))
      → ((e : Error) → E e → Gives R F (g e))
      → Gives R F (attempt m f g)
  unfolding attempt
  Gives-attempt m f g km kf kg = record {
    at = λ s. Good-resume (m s).0 f g (m s).1 (km.at s) kf kg;
  }

  pub Gives-bind :
      (m : Op S A) (f : A → Op S B)
      → Gives Q E m
      → ((a : A) → Q a → Gives R F (f a))
      → ((e : Error) → E e → F e)
      → Gives R F (m >>= f)
  unfolding ◌>>=◌
  Gives-bind m f km kf h = record {
    at = λ s. Good-resume (m s).0 f fail (m s).1 (km.at s) kf (λ e x. Gives-fail e (h e x));
  }

module _ {S A B : Type 0} (Q : A → Type 0) (R : B → Type 0) where
  Good-resumed :
      (r : Result A) (f : A → Op S B) (t : S)
      → Good Q Any r
      → ((a : A) → Q a → Good R Any (f a t).0)
      → Good R Any (resume r f fail t).0
  unfolding fail
  Good-resumed (ok a) f t h kf = kf a h
  Good-resumed (err e) f t h kf = tt

  -- A step whose result is known in one state only.
  pub Good-bind :
      (m : Op S A) (f : A → Op S B) (s : S)
      → Good Q Any (m s).0
      → ((a : A) → Q a → Good R Any (f a (m s).1).0)
      → Good R Any ((m >>= f) s).0
  unfolding ◌>>=◌
  Good-bind m f s h kf = Good-resumed (m s).0 f (m s).1 h kf

module _ {A : Type 0} (Q R : A → Type 0) where
  pub Good-both : (r : Result A) → Good Q Any r → Good R Any r → Good (λ a. Q a × R a) Any r
  Good-both (ok a) h k = (h, k)
  Good-both (err e) h k = tt

module _ {S A B : Type 0} {P : S → Type 0} where
  -- What follows a step that fails is not run.
  pub Keeps-bind-Fails : (m : Op S A) (f : A → Op S B) → Fails m → Keeps P m → Keeps P (m >>= f)
  unfolding ◌>>=◌ fail
  Keeps-bind-Fails m f n k = record { at = λ s p. kept (m s).0 (m s).1 (n.at s) (k.at s p) }
    where
      kept : (r : Result A) (t : S) → Good (λ _. ⊥) Any r → P t → P (resume r f fail t).1
      kept (ok a) t n p = absurd n
      kept (err e) t n p = p
