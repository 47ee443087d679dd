-- ===== src/Scenarios/Injecting.antt =====
-- The theorem on the credentials for S3 at a concrete DoltDB.
use doltdb_operator.Prelude.{true, [], ◌∷◌, some, codes, str_eq, ◌≡◌, refl}
use doltdb_operator.Effect.{ok, ◌>>=◌, attempt}
use doltdb_operator.Backup.Credentials.{
  Credentials, EnvVar, State, Calls, from_secret, has_env_vars, s3_env_vars, ensure_s3_env_vars,
  read_secret, validate_secret_refs, inject, append_missing,
}
use doltdb_operator.Backup.Injected.{Same, present_credentials_stay}

abbrev other_key : EnvVar
other_key = record {
  name = codes "AWS_ACCESS_KEY_ID";
  value = from_secret (record { name = codes "other"; key = codes "id" });
}

abbrev credentials : Credentials
credentials = record {
  access_key_id = some (record { name = codes "mine"; key = codes "id" });
  secret_access_key = some (record { name = codes "mine"; key = codes "key" });
  region = codes "eu";
}

abbrev calls : Calls
calls = record {
  get_secret = λ t name. ok ((codes "id", codes "a") ∷ (codes "key", codes "b") ∷ []);
  patch_doltdb = λ t vars. ok vars;
}

abbrev one_there : State
one_there = record { env_vars = other_key ∷ []; trace = [] }

ensured : (ensure_s3_env_vars calls credentials one_there).0 ≡ ok tt
unfolding ensure_s3_env_vars ◌>>=◌ attempt read_secret validate_secret_refs inject append_missing
    s3_env_vars has_env_vars str_eq
ensured = refl

present_credentials_stay_example :
    let vars = (ensure_s3_env_vars calls credentials one_there).1.env_vars in
    (has_env_vars vars (s3_env_vars credentials) ≡ true)
    × Same (codes "AWS_ACCESS_KEY_ID") (other_key ∷ []) vars
present_credentials_stay_example =
    present_credentials_stay calls credentials one_there (codes "AWS_ACCESS_KEY_ID")
      (λ t vars. refl) ensured
