-- ===== src/Backup/Injected.antt =====
-- What `EnsureS3EnvVars` leaves in the spec of a DoltDB.
use doltdb_operator.Prelude.{
  Bool, true, false, List, [], ◌∷◌, ◌++◌, Option, none, some, Bytes, is_empty, str_eq, str_eq_refl,
  Bool-cases, ◌||◌, ◌≡◌, ◌⊎◌, inl, inr, refl, sym, ap, ◌∙◌, arith, if◌then◌else◌,
}
use mathlib.Core.Path.{subst}
use doltdb_operator.Effect.{ok, Op, pure, ◌>>◌, wrap}
use doltdb_operator.Effect.Keeps.{Keeps, keeps_rules, Keeps-bind}
use doltdb_operator.Effect.Runs.{
  After, Runs, Runs-Keeps, Runs-pure, Runs-wrap, Runs-bind, Runs-gets,
}
use doltdb_operator.Backup.Credentials.{
  SecretKey, Credentials, EnvVar, Trace, State, Calls, s3_env_vars, contains_env_var, has_env_vars,
  append_missing, read_secret, validate_ref, validate_secret_refs, patch_answer, inject,
  ensure_s3_env_vars,
}

-- The variable of a name: the first.
unfoldable pub find_env_var : Bytes → List EnvVar → Option EnvVar
find_env_var name [] = none
find_env_var name (v ∷ vs) = if str_eq v.name name then some v else find_env_var name vs

or_right : (b c : Bool) → b ≡ false → b || c ≡ true → c ≡ true
or_right true c e h = cc
or_right false c e h = h

contains-append :
    (name : Bytes) (vs ws : List EnvVar)
    → contains_env_var vs name ≡ true
    → contains_env_var (vs ++ ws) name ≡ true
contains-append name [] ws h = cc
contains-append name (v ∷ vs) ws h = elim (Bool-cases (str_eq v.name name)) [
  | inl e ↦ rw e refl
  | inr e ↦ rw e (contains-append name vs ws (or_right (str_eq v.name name) _ e h))
]

find-append :
    (name : Bytes) (vs ws : List EnvVar)
    → contains_env_var vs name ≡ true
    → find_env_var name (vs ++ ws) ≡ find_env_var name vs
unfolding find_env_var
find-append name [] ws h = cc
find-append name (v ∷ vs) ws h = elim (Bool-cases (str_eq v.name name)) [
  | inl e ↦ rw e refl
  | inr e ↦ rw e (find-append name vs ws (or_right (str_eq v.name name) _ e h))
]

contains_added : (vs : List EnvVar) (v : EnvVar) → contains_env_var (vs ++ v ∷ []) v.name ≡ true
contains_added [] v = rw (str_eq_refl v.name) refl
contains_added (w ∷ vs) v = rw (contains_added vs v) (ground arith)

-- One step of the loop.
abbrev with_missing : List EnvVar → EnvVar → List EnvVar
with_missing vs d = if contains_env_var vs d.name then vs else vs ++ d ∷ []

step_kept :
    (name : Bytes) (vs : List EnvVar) (d : EnvVar)
    → contains_env_var vs name ≡ true
    → (contains_env_var (with_missing vs d) name ≡ true)
      × (find_env_var name (with_missing vs d) ≡ find_env_var name vs)
step_kept name vs d h = by_case (contains_env_var vs d.name)
  where
    by_case :
        (b : Bool)
        → (contains_env_var (if b then vs else vs ++ d ∷ []) name ≡ true)
          × (find_env_var name (if b then vs else vs ++ d ∷ []) ≡ find_env_var name vs)
    by_case true = (h, refl)
    by_case false = (contains-append name vs (d ∷ []) h, find-append name vs (d ∷ []) h)

step_added : (vs : List EnvVar) (d : EnvVar) → contains_env_var (with_missing vs d) d.name ≡ true
step_added vs d = by_case (contains_env_var vs d.name) refl
  where
    by_case :
        (b : Bool)
        → contains_env_var vs d.name ≡ b
        → contains_env_var (if b then vs else vs ++ d ∷ []) d.name ≡ true
    by_case true e = e
    by_case false e = contains_added vs d

kept :
    (name : Bytes) (vs ds : List EnvVar)
    → contains_env_var vs name ≡ true
    → (contains_env_var (append_missing vs ds) name ≡ true)
      × (find_env_var name (append_missing vs ds) ≡ find_env_var name vs)
unfolding append_missing
kept name vs [] h = (h, refl)
kept name vs (d ∷ ds) h =
    let (there, same) = step_kept name vs d h in
    let (still, found) = kept name (with_missing vs d) ds there in (still, found ∙ same)

complete : (vs ds : List EnvVar) → has_env_vars (append_missing vs ds) ds ≡ true
unfolding append_missing has_env_vars
complete vs [] = refl
complete vs (d ∷ ds) =
    rw ((kept d.name (with_missing vs d) ds (step_added vs d)).0) (complete (with_missing vs d) ds)

-- A variable of the name that was there is what it was.
abbrev pub Same : Bytes → List EnvVar → List EnvVar → Type 0
Same name before now =
    (contains_env_var before name ≡ false) ⊎ (find_env_var name now ≡ find_env_var name before)

appended-Same : (name : Bytes) (vs ds : List EnvVar) → Same name vs (append_missing vs ds)
appended-Same name vs ds = elim (Bool-cases (contains_env_var vs name)) [
  | inl there ↦ inr (kept name vs ds there).1
  | inr absent ↦ inl absent
]

module _ (calls : Calls) (c : Credentials) (vars : List EnvVar) (name : Bytes) where
  abbrev Before : State → Type 0
  Before s = s.env_vars ≡ vars

  -- Every desired variable is there, and the variable of the name is what it was.
  abbrev Injected : State → Type 0
  Injected s = (has_env_vars s.env_vars (s3_env_vars c) ≡ true) × Same name vars s.env_vars

  read-Before : (secret : Bytes) → Keeps Before (read_secret calls secret)
  unfolding read_secret
  read-Before secret = record { at = λ s h. h }

  ref-Before : (o : Option SecretKey) → Keeps Before (validate_ref calls o)
  ref-Before none = search keeps_rules
  ref-Before (some ref) = search (keeps_rules, read-Before) depth 10

  validate-Before : Keeps Before (validate_secret_refs calls c)
  unfolding validate_secret_refs
  validate-Before =
      Keeps-bind _ _ (ref-Before c.access_key_id) (λ _. ref-Before c.secret_access_key)

  abbrev Any : State → Type 0
  Any s = Unit

  module _ (accepts : (t : Trace) (vs : List EnvVar) → calls.patch_doltdb t vs ≡ ok vs) where
    inject-Injected : Runs Before (λ (_ : Unit {0}). Injected) Any (inject calls (s3_env_vars c))
    unfolding inject
    inject-Injected = record {
      at = λ s h.
          subst
            (λ r.
              let y = patch_answer calls r (append_missing s.env_vars (s3_env_vars c)) s in
              After (λ (_ : Unit {0}). Injected) Any y.0 y.1)
            (sym (accepts _ _))
            (
              complete s.env_vars (s3_env_vars c),
              subst (λ vs. Same name vars (append_missing vs (s3_env_vars c))) (sym h)
                  (appended-Same name vars (s3_env_vars c)),
            );
    }

    -- Nothing is to do where each variable is there.
    untouched :
        has_env_vars vars (s3_env_vars c) ≡ true
        → Runs Before (λ (_ : Unit {0}). Injected) Any (pure tt)
    untouched h = Runs-pure tt (λ s e. (
      subst (λ vs. has_env_vars vs (s3_env_vars c) ≡ true) (sym e) h,
      inr (ap (find_env_var name) e),
    ))

    by_need :
        (b : Bool)
        → has_env_vars vars (s3_env_vars c) ≡ b
        → Runs Before
            (λ (_ : Unit {0}). Injected)
            Any
            (if b
              then pure tt
              else wrap "error validating S3 secret references: %w" (validate_secret_refs calls c)
                >> inject calls (s3_env_vars c))
    by_need true e = untouched e
    by_need false e =
        Runs-bind (Runs-wrap _ (Runs-Keeps validate-Before)) (λ _. inject-Injected) (λ s h. tt)

    none_desired : (ds : List EnvVar) → is_empty ds ≡ true → has_env_vars vars ds ≡ true
    unfolding has_env_vars
    none_desired [] e = refl
    none_desired (d ∷ ds) e = cc

    ensure-Injected : Runs Before (λ (_ : Unit {0}). Injected) Any (ensure_s3_env_vars calls c)
    unfolding ensure_s3_env_vars
    ensure-Injected = Runs-gets _ _ vars (λ s h. h) (by_desire (is_empty (s3_env_vars c)) refl)
      where
        rest : Op State (Unit {0})
        rest =
            if has_env_vars vars (s3_env_vars c)
            then pure tt
            else wrap "error validating S3 secret references: %w" (validate_secret_refs calls c)
              >> inject calls (s3_env_vars c)

        by_desire :
            (b : Bool)
            → is_empty (s3_env_vars c) ≡ b
            → Runs Before (λ (_ : Unit {0}). Injected) Any (if b then pure tt else rest)
        by_desire true e = untouched (none_desired (s3_env_vars c) e)
        by_desire false e = by_need (has_env_vars vars (s3_env_vars c)) refl

module _ (calls : Calls) (c : Credentials) (s : State) where
  -- Where the patch is accepted as it was sent and the credentials are ensured without an error, each
  -- variable that they need is in the spec, whatever was there; and a variable of any name that was
  -- there is what it was, also where the Backup names another Secret.
  pub present_credentials_stay :
      (name : Bytes)
      → ((t : Trace) (vs : List EnvVar) → calls.patch_doltdb t vs ≡ ok vs)
      → (ensure_s3_env_vars calls c s).0 ≡ ok tt
      → (has_env_vars (ensure_s3_env_vars calls c s).1.env_vars (s3_env_vars c) ≡ true)
        × Same name s.env_vars (ensure_s3_env_vars calls c s).1.env_vars
  present_credentials_stay name accepts returned =
      subst
        (λ r.
          After (λ _. Injected calls c s.env_vars name) (Any calls c s.env_vars name) r
            (ensure_s3_env_vars calls c s).1)
        returned ((ensure-Injected calls c s.env_vars name accepts).at s refl)
