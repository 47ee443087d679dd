-- ===== src/Backup/Credentials.antt =====
-- `EnsureS3EnvVars` of pkg/controller/backup/backup.go: the credentials for S3 in the spec of a DoltDB.
use doltdb_operator.Prelude.{
  Bool, true, false, List, [], ◌∷◌, ◌++◌, Option, none, some, Bytes, codes, is_empty, any, str_eq,
  if◌then◌else◌,
}
use doltdb_operator.Effect.{message, Result, ok, err, Op, pure, fail, gets, ◌>>=◌, ◌>>◌, wrap}

-- `SecretKeySelector`: a Secret and a key of it.
pub record SecretKey : Type 0 where
  pub name : Bytes
  pub key : Bytes

-- What a `S3BackupStorage` says of credentials.
pub record Credentials : Type 0 where
  pub access_key_id : Option SecretKey
  pub secret_access_key : Option SecretKey
  pub region : Bytes

pub data EnvValue : Type 0 where
  from_secret : SecretKey → EnvValue
  literal : Bytes → EnvValue

pub record EnvVar : Type 0 where
  pub name : Bytes
  pub value : EnvValue

pub data Event : Type 0 where
  got_secret : Bytes → Event
  patched : List EnvVar → Event

abbrev pub Trace : Type 0
Trace = List Event

-- `Spec.Env` of the DoltDB in memory, and the calls so far.
pub record State : Type 0 where
  pub env_vars : List EnvVar
  pub trace : Trace

-- A Secret by its entries; what the server makes of a patch of the DoltDB.
pub record Calls : Type 0 where
  pub get_secret : Trace → Bytes → Result (List (Bytes × Bytes))
  pub patch_doltdb : Trace → List EnvVar → Result (List EnvVar)

abbrev secret_var : Bytes → Option SecretKey → List EnvVar
secret_var name none = []
secret_var name (some ref) = record { name = name; value = from_secret ref } ∷ []

-- `s3EnvVars`.
unfoldable pub s3_env_vars : Credentials → List EnvVar
s3_env_vars c =
    secret_var (codes "AWS_ACCESS_KEY_ID") c.access_key_id
    ++ (secret_var (codes "AWS_SECRET_ACCESS_KEY") c.secret_access_key
        ++ (if is_empty c.region
            then []
            else record { name = codes "AWS_REGION"; value = literal c.region } ∷ []))

-- `containsEnvVar` and `hasEnvVars`.
abbrev pub contains_env_var : List EnvVar → Bytes → Bool
contains_env_var vars name = any (λ v. str_eq v.name name) vars

unfoldable pub has_env_vars : List EnvVar → List EnvVar → Bool
has_env_vars current [] = true
has_env_vars current (d ∷ ds) =
    let rest = has_env_vars current ds in if contains_env_var current d.name then rest else false

-- The loop that appends what is not there; it looks at what it has appended, too.
unfoldable pub append_missing : List EnvVar → List EnvVar → List EnvVar
append_missing current [] = current
append_missing current (d ∷ ds) =
    append_missing (if contains_env_var current d.name then current else current ++ d ∷ []) ds

abbrev has_key : List (Bytes × Bytes) → Bytes → Bool
has_key entries key = any (λ e. str_eq e.0 key) entries

module _ (calls : Calls) where
  unfoldable pub read_secret : Bytes → Op State (List (Bytes × Bytes))
  read_secret name s =
      let t = got_secret name ∷ s.trace in (calls.get_secret t name, record s { trace = t })

  abbrev pub validate_ref : Option SecretKey → Op State (Unit {0})
  validate_ref none = pure tt
  validate_ref (some ref) =
      wrap "secret '%s' not found in namespace '%s': %w" (read_secret ref.name) >>= λ entries.
      if has_key entries ref.key
      then pure tt
      else fail (message "key '%s' not found in secret '%s/%s'")

  -- `validateSecretRefs`.
  unfoldable pub validate_secret_refs : Credentials → Op State (Unit {0})
  unfolding read_secret
  validate_secret_refs c = validate_ref c.access_key_id >> validate_ref c.secret_access_key

  abbrev pub patch_answer : Result (List EnvVar) → List EnvVar → State → Result (Unit {0}) × State
  patch_answer (ok vars) changed s =
      (ok tt, record { env_vars = vars; trace = patched changed ∷ s.trace })
  patch_answer (err e) changed s =
      (err e, record { env_vars = changed; trace = patched changed ∷ s.trace })

  unfoldable pub inject : List EnvVar → Op State (Unit {0})
  unfolding append_missing
  inject desired s =
      let changed = append_missing s.env_vars desired in
      patch_answer (calls.patch_doltdb (patched changed ∷ s.trace) changed) changed s

  -- `EnsureS3EnvVars`.
  unfoldable pub ensure_s3_env_vars : Credentials → Op State (Unit {0})
  unfolding s3_env_vars has_env_vars validate_secret_refs inject
  ensure_s3_env_vars c = gets (λ s. s.env_vars) >>= λ current.
      if is_empty (s3_env_vars c)
      then pure tt
      else if has_env_vars current (s3_env_vars c)
      then pure tt
      else wrap "error validating S3 secret references: %w" (validate_secret_refs c)
        >> inject (s3_env_vars c)
