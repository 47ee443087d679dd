-- ===== src/Effect/Runs.antt =====
-- Steps with what holds after a return and after a failure.
use doltdb_operator.Prelude.{String, Bool, true, false, ◌≡◌, sym, if◌then◌else◌}
use mathlib.Core.Path.{subst}
use doltdb_operator.Effect.{
  Error, Result, ok, err, Op, pure, fail, gets, gets, message, resume, ◌>>=◌, attempt, wrap,
}
use doltdb_operator.Effect.Keeps.{Keeps}

module _ {S A : Type 0} (Q : A → S → Type 0) (E : S → Type 0) where
  abbrev pub After : Result A → S → Type 0
  After (ok a) t = Q a t
  After (err e) t = E t

-- From `P`, a return of `a` comes to `Q a`, a failure to `E`.
pub record Runs {S A : Type 0} (P : S → Type 0) (Q : A → S → Type 0) (E : S → Type 0) (m : Op S A)
    : Type 0 where
  pub at : (s : S) → P s → After Q E (m s).0 (m s).1

module _ {S A : Type 0} {P : S → Type 0} where
  pub Runs-Keeps : {m : Op S A} → Keeps P m → Runs P (λ _. P) P m
  Runs-Keeps {m} k = record { at = λ s p. split (m s).0 (m s).1 (k.at s p) }
    where
      split : (r : Result A) (t : S) → P t → After (λ _. P) P r t
      split (ok a) t p = p
      split (err e) t p = p

  pub Runs-pure :
      {Q : A → S → Type 0} {E : S → Type 0} (a : A) → ((s : S) → P s → Q a s) → Runs P Q E (pure a)
  unfolding pure
  Runs-pure a h = record { at = h }

module _ {S A : Type 0} {P : S → Type 0} {Q : A → S → Type 0} {E : S → Type 0} where
  pub Runs-if :
      (b : Bool) {m n : Op S A} → Runs P Q E m → Runs P Q E n → Runs P Q E (if b then m else n)
  Runs-if true km kn = km
  Runs-if false km kn = kn

module _ {S A : Type 0} {P : S → Type 0} {Q : A → S → Type 0} {E F : S → Type 0} where
  pub Runs-weaken : {m : Op S A} → Runs P Q E m → ((s : S) → E s → F s) → Runs P Q F m
  Runs-weaken {m} k h = record { at = λ s p. weaker (m s).0 (m s).1 (k.at s p) }
    where
      weaker : (r : Result A) (t : S) → After Q E r t → After Q F r t
      weaker (ok a) t x = x
      weaker (err e) t x = h t x

module _ {S A B : Type 0} {Q : A → S → Type 0} {E F : S → Type 0} {R : B → S → Type 0} where
  resume-After :
      (r : Result A) (f : A → Op S B) (g : Error → Op S B) (t : S)
      → After Q E r t
      → ((a : A) → Runs (Q a) R F (f a))
      → ((e : Error) → Runs E R F (g e))
      → After R F (resume r f g t).0 (resume r f g t).1
  resume-After (ok a) f g t h kf kg = (kf a).at t h
  resume-After (err e) f g t h kf kg = (kg e).at t h

module _ {S A B : Type 0} {P : S → Type 0} {Q : A → S → Type 0} {E F : S → Type 0}
    {R : B → S → Type 0} where
  pub Runs-attempt :
      {m : Op S A} {f : A → Op S B} {g : Error → Op S B}
      → Runs P Q E m
      → ((a : A) → Runs (Q a) R F (f a))
      → ((e : Error) → Runs E R F (g e))
      → Runs P R F (attempt m f g)
  unfolding attempt
  Runs-attempt {m} {f} {g} km kf kg = record {
    at = λ s p. resume-After (m s).0 f g (m s).1 (km.at s p) kf kg;
  }

  pub Runs-bind :
      {m : Op S A} {f : A → Op S B}
      → Runs P Q E m
      → ((a : A) → Runs (Q a) R F (f a))
      → ((s : S) → E s → F s)
      → Runs P R F (m >>= f)
  unfolding ◌>>=◌ fail
  Runs-bind {m} {f} km kf h = record {
    at = λ s p.
        resume-After (m s).0 f fail (m s).1 (km.at s p) kf (λ e. record { at = λ t x. h t x });
  }

module _ {S A : Type 0} {P : S → Type 0} {Q : A → S → Type 0} {E : S → Type 0} where
  pub Runs-wrap : (text : String) {m : Op S A} → Runs P Q E m → Runs P Q E (wrap text m)
  unfolding attempt pure fail
  Runs-wrap text {m} k = record { at = λ s p. wrapped (m s).0 (m s).1 (k.at s p) }
    where
      wrapped :
          (r : Result A) (t : S)
          → After Q E r t
          → let y = resume r pure (λ e. fail (message text)) t in After Q E y.0 y.1
      wrapped (ok a) t h = h
      wrapped (err e) t h = h

module _ {S A B : Type 0} {P : S → Type 0} {Q : B → S → Type 0} {E : S → Type 0} where
  -- What is looked up is known from what holds.
  pub Runs-gets :
      (f : S → A) (k : A → Op S B) (a : A)
      → ((s : S) → P s → f s ≡ a)
      → Runs P Q E (k a)
      → Runs P Q E (gets f >>= k)
  unfolding ◌>>=◌
  Runs-gets f k a known r = record {
    at = λ s p. subst (λ x. After Q E (k x s).0 (k x s).1) (sym (known s p)) (r.at s p);
  }

  pub Runs-known :
      (k : A → Op S B) {a v : A} → Runs P Q E (k v) → Runs (λ s. P s × (a ≡ v)) Q E (k a)
  Runs-known k {a} r = record {
    at = λ s p. subst (λ x. After Q E (k x s).0 (k x s).1) (sym p.1) (r.at s p.0);
  }

  pub Runs-look :
      (f : S → A) (k : A → Op S B) → ((a : A) → Runs P Q E (k a)) → Runs P Q E (gets f >>= k)
  unfolding ◌>>=◌
  Runs-look f k r = record { at = λ s p. (r (f s)).at s p }

module _ {S A : Type 0} {P : S → Type 0} {Q R : A → S → Type 0} {E : S → Type 0} where
  pub Runs-after : {m : Op S A} → Runs P Q E m → ((a : A) (s : S) → Q a s → R a s) → Runs P R E m
  Runs-after {m} k h = record { at = λ s p. after (m s).0 (m s).1 (k.at s p) }
    where
      after : (r : Result A) (t : S) → After Q E r t → After R E r t
      after (ok a) t x = h a t x
      after (err e) t x = x
