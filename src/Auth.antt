-- ===== src/Auth.antt =====
-- pkg/auth/store.go and token.go: the credentials of providers, their file, and tokens that are pasted.
-- The file holds JSON that decodes to what was encoded; times count nanoseconds and 0 is Go's zero time.
pub mod Reload
mod Examples
use picoclaw.Prelude.{
  ◌+◌, ◌-◌, String, ◌⊎◌, inl, inr, Bool, true, false, not, Option, none, some, [], ◌∷◌, str_eq, ltb,
  if◌then◌else◌,
}
use Prim.Native.String.{len}
use package.text.Mathlib.Text.{starts_with}
use picoclaw.Prelude.Int.{ℤ, pos, ◌+ℤ◌, ltb_ℤ, eqb_ℤ}
use picoclaw.Prelude.Text.{concat, trim_space}
use picoclaw.Prelude.Dict.{Dict, get, put, delete}

pub record AuthCredential : Type 0 where
  pub access_token : String
  pub refresh_token : String
  pub account_id : String
  pub expires_at : ℤ
  pub provider : String
  pub auth_method : String

-- A map of credentials; JSON may hold no map at all, which LoadStore replaces by an empty one.
abbrev pub AuthStore : Type 0
AuthStore = Dict AuthCredential

pub data AuthFile : Type 0 where
  missing unreadable malformed no_credentials : AuthFile
  encoded : AuthStore → AuthFile

pub data AuthError : Type 0 where
  read_failed decode_failed mkdir_failed marshal_failed write_failed remove_failed : AuthError

pub data WriteOutcome : Type 0 where
  not_opened stopped_short written : WriteOutcome

-- What the operating system answers.
pub record Io : Type 0 where
  pub mkdir_ok : Bool
  pub marshal_ok : Bool
  pub write : WriteOutcome
  pub remove_ok : Bool

unfoldable pub is_expired : ℤ → AuthCredential → Bool
is_expired now c = if eqb_ℤ c.expires_at (pos 0) then false else ltb_ℤ c.expires_at now

-- Five minutes before the end.
unfoldable pub needs_refresh : ℤ → AuthCredential → Bool
needs_refresh now c =
    if eqb_ℤ c.expires_at (pos 0) then false else ltb_ℤ c.expires_at (now +ℤ pos 300000000000)

unfoldable pub load_store : AuthFile → AuthError ⊎ AuthStore
load_store missing = inr []
load_store unreadable = inl read_failed
load_store malformed = inl decode_failed
load_store no_credentials = inr []
load_store (encoded s) = inr s

write_store : WriteOutcome → AuthStore → AuthFile → AuthFile × Option AuthError
write_store not_opened s f = (f, some write_failed)
write_store stopped_short s f = (malformed, some write_failed)
write_store written s f = (encoded s, none)

unfoldable pub save_store : Io → AuthStore → AuthFile → AuthFile × Option AuthError
unfolding write_store
save_store io s f =
    if not io.mkdir_ok
    then (f, some mkdir_failed)
    else if not io.marshal_ok
    then (f, some marshal_failed)
    else write_store io.write s f

found_in : String → AuthError ⊎ AuthStore → AuthError ⊎ Option AuthCredential
found_in provider (inl e) = inl e
found_in provider (inr s) = inr (get s provider)

unfoldable pub get_credential : String → AuthFile → AuthError ⊎ Option AuthCredential
unfolding found_in load_store
get_credential provider f = found_in provider (load_store f)

changed :
    Io → (AuthStore → AuthStore) → AuthError ⊎ AuthStore → AuthFile → AuthFile × Option AuthError
changed io change (inl e) f = (f, some e)
changed io change (inr s) f = save_store io (change s) f

unfoldable pub set_credential :
    Io → String → AuthCredential → AuthFile → AuthFile × Option AuthError
unfolding changed load_store
set_credential io provider c f = changed io (λ s. put s provider c) (load_store f) f

unfoldable pub delete_credential : Io → String → AuthFile → AuthFile × Option AuthError
unfolding changed load_store
delete_credential io provider f = changed io (λ s. delete s provider) (load_store f) f

removed : Bool → AuthFile → AuthFile × Option AuthError
removed ok missing = (missing, none)
removed true f = (missing, none)
removed false f = (f, some remove_failed)

unfoldable pub delete_all_credentials : Io → AuthFile → AuthFile × Option AuthError
unfolding removed
delete_all_credentials io f = removed io.remove_ok f

-- A line that is read from the terminal: the text, the end of the input, or an error.
pub data Line : Type 0 where
  scanned : String → Line
  ended : Line
  failed : String → Line

credential : String → String → String → AuthCredential
credential provider token method = record {
  access_token = token;
  refresh_token = "";
  account_id = "";
  expires_at = pos 0;
  provider = provider;
  auth_method = method;
}

unfoldable pub login_paste_token : String → Line → String ⊎ AuthCredential
unfolding credential
login_paste_token provider (failed e) = inl (concat ("reading token: " ∷ e ∷ []))
login_paste_token provider ended = inl "no input received"
login_paste_token provider (scanned line) =
    if str_eq (trim_space line) ""
    then inl "token cannot be empty"
    else inr (credential provider (trim_space line) "token")

abbrev pub setup_token_prefix : String
setup_token_prefix = "sk-ant-oat01-"

unfoldable pub login_setup_token : Line → String ⊎ AuthCredential
unfolding credential
login_setup_token (failed e) = inl (concat ("reading setup-token: " ∷ e ∷ []))
login_setup_token ended = inl "no input received"
login_setup_token (scanned line) =
    let token = trim_space line in
    if str_eq token ""
    then inl "setup-token cannot be empty"
    else if not (starts_with token setup_token_prefix)
    then inl (concat ("invalid setup-token: must start with " ∷ setup_token_prefix ∷ []))
    else if ltb (len token) 80
    then inl "invalid setup-token: too short (expected at least 80 characters)"
    else inr (credential "anthropic" token "setup-token")
