-- ===== src/Auth/Examples.antt =====
-- The theorems about credentials at concrete files.
use picoclaw.Prelude.{String, ◌≡◌, refl, inr, true, some, [], ◌∷◌, str_eq, if◌then◌else◌}
use picoclaw.Prelude.Int.{pos}
use picoclaw.Auth.{
  AuthCredential, AuthFile, encoded, Io, WriteOutcome, written, get_credential, set_credential,
  save_store,
}
use picoclaw.Auth.Reload.{get-set_credential}

abbrev key : String → AuthCredential
key token = record {
  access_token = token;
  refresh_token = "";
  account_id = "";
  expires_at = pos 0;
  provider = "openai";
  auth_method = "token";
}

abbrev io : WriteOutcome → Io
io outcome = record { mkdir_ok = true; marshal_ok = true; write = outcome; remove_ok = true }

abbrev file : AuthFile
file = encoded (("openai", key "old") ∷ ("anthropic", key "sk-ant") ∷ [])

get-set_credential_example :
    get_credential "anthropic" (set_credential (io written) "openai" (key "new") file).0 ≡ (
      if str_eq "anthropic" "openai"
      then inr (some (key "new"))
      else get_credential "anthropic" file)
unfolding set_credential save_store
get-set_credential_example =
    get-set_credential (io written) "openai" "anthropic" (key "new") file refl
