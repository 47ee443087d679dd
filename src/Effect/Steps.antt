-- ===== src/Effect/Steps.antt =====
-- One step of an operation whose outcome is known.
use doltdb_operator.Prelude.{◌≡◌, ◌⊎◌, inl, inr, refl, ap, String}
use doltdb_operator.Effect.{
  Error, Result, ok, err, Op, fail, resume, pure, message, ◌>>=◌, attempt, wrap,
}

module _ {S A B : Type 0} (m : Op S A) (f : A → Op S B) {s : S} where
  pub bind-ok : {a : A} {t : S} → m s ≡ (ok a, t) → (m >>= f) s ≡ f a t
  unfolding ◌>>=◌
  bind-ok e = ap (λ (x : Result A × S). resume x.0 f fail x.1) e

  pub bind-err : {e : Error} {t : S} → m s ≡ (err e, t) → (m >>= f) s ≡ (err e, t)
  unfolding ◌>>=◌
  bind-err e = ap (λ (x : Result A × S). resume x.0 f fail x.1) e

  module _ (g : Error → Op S B) where
    pub attempt-ok : {a : A} {t : S} → m s ≡ (ok a, t) → attempt m f g s ≡ f a t
    unfolding attempt
    attempt-ok e = ap (λ (x : Result A × S). resume x.0 f g x.1) e

    pub attempt-err : {e : Error} {t : S} → m s ≡ (err e, t) → attempt m f g s ≡ g e t
    unfolding attempt
    attempt-err e = ap (λ (x : Result A × S). resume x.0 f g x.1) e

module _ {S A : Type 0} (text : String) (m : Op S A) {s t : S} where
  pub wrap-ok : {a : A} → m s ≡ (ok a, t) → wrap text m s ≡ (ok a, t)
  unfolding pure
  wrap-ok e = attempt-ok m pure (λ _. fail (message text)) e

  pub wrap-err : {e : Error} → m s ≡ (err e, t) → wrap text m s ≡ (err (message text), t)
  unfolding fail
  wrap-err e = attempt-err m pure (λ _. fail (message text)) e

module _ {S A B : Type 0} where
  resume-inv :
      (r : Result A) (f : A → Op S B) (t : S) {b : B}
      → (resume r f fail t).0 ≡ ok b
      → (a : A) × ((f a t).0 ≡ ok b) × (resume r f fail t ≡ f a t)
  unfolding fail
  resume-inv (ok a) f t e = (a, e, refl)
  resume-inv (err x) f t e = cc

  -- An operation that returned went through each of its steps.
  pub bind-inv :
      (m : Op S A) (f : A → Op S B) (s : S) {b : B}
      → ((m >>= f) s).0 ≡ ok b
      → (a : A) × ((f a (m s).1).0 ≡ ok b) × ((m >>= f) s ≡ f a (m s).1)
  unfolding ◌>>=◌
  bind-inv m f s e = resume-inv (m s).0 f (m s).1 e

module _ {S A B : Type 0} where
  returned-inv :
      (r : Result A) (f : A → Op S B) (t : S) {b : B}
      → (resume r f fail t).0 ≡ ok b
      → (a : A) × (r ≡ ok a) × ((f a t).0 ≡ ok b) × (resume r f fail t ≡ f a t)
  unfolding fail
  returned-inv (ok a) f t h = (a, refl, h, refl)
  returned-inv (err x) f t h = cc

  -- `bind-inv`, with what the step returned.
  pub step-inv :
      (m : Op S A) (f : A → Op S B) (s : S) {b : B}
      → ((m >>= f) s).0 ≡ ok b
      → (a : A) × ((m s).0 ≡ ok a) × ((f a (m s).1).0 ≡ ok b) × ((m >>= f) s ≡ f a (m s).1)
  unfolding ◌>>=◌
  step-inv m f s h = returned-inv (m s).0 f (m s).1 h

module _ {S A B : Type 0} (text : String) where
  rewrap-inv :
      (r : Result A) (f : A → Op S B) (t : S) {b : B}
      → (resume
          (resume r pure (λ e. fail (message text)) t).0
          f
          fail
          (resume r pure (λ e. fail (message text)) t).1).0
        ≡ ok b
      → (a : A) × (r ≡ ok a)
        × ((f a t).0 ≡ ok b)
        × (resume
              (resume r pure (λ e. fail (message text)) t).0
              f
              fail
              (resume r pure (λ e. fail (message text)) t).1
            ≡ f a t)
  unfolding pure fail
  rewrap-inv (ok a) f t h = (a, refl, h, refl)
  rewrap-inv (err x) f t h = cc

  -- The same for a step whose error is wrapped, with what the step returned.
  pub wrap-inv :
      (m : Op S A) (f : A → Op S B) (s : S) {b : B}
      → ((wrap text m >>= f) s).0 ≡ ok b
      → (a : A) × ((m s).0 ≡ ok a)
        × ((f a (m s).1).0 ≡ ok b)
        × ((wrap text m >>= f) s ≡ f a (m s).1)
  unfolding ◌>>=◌ attempt
  wrap-inv m f s h = rewrap-inv (m s).0 f (m s).1 h

module _ {S A B : Type 0} (f : A → Op S B) (g : Error → Op S B) where
  handled-inv :
      (r : Result A) (t : S) {b : B}
      → (resume r f g t).0 ≡ ok b
      → ((a : A) × (r ≡ ok a) × ((f a t).0 ≡ ok b) × (resume r f g t ≡ f a t))
        ⊎ ((e : Error) × (r ≡ err e) × ((g e t).0 ≡ ok b) × (resume r f g t ≡ g e t))
  handled-inv (ok a) t h = inl (a, refl, h, refl)
  handled-inv (err e) t h = inr (e, refl, h, refl)

module _ {S A B : Type 0} where
  -- What returned before a step with handlers returned.
  pub attempt-inv :
      (m : Op S A) (f : A → Op S B) (g : Error → Op S B) (s : S) {b : B}
      → (attempt m f g s).0 ≡ ok b
      → ((a : A) × ((m s).0 ≡ ok a) × ((f a (m s).1).0 ≡ ok b) × (attempt m f g s ≡ f a (m s).1))
        ⊎ ((e : Error) × ((m s).0 ≡ err e)
            × ((g e (m s).1).0 ≡ ok b)
            × (attempt m f g s ≡ g e (m s).1))
  unfolding attempt
  attempt-inv m f g s h = handled-inv f g (m s).0 (m s).1 h
