-- ===== src/Auth/Reload.antt =====
-- What a change of the credentials (pkg/auth/store.go) leaves in the file.
use picoclaw.Prelude.{
  String, ◌≡◌, refl, inl, inr, true, none, some, [], arith, str_eq, if◌then◌else◌,
}
use picoclaw.Prelude.Dict.{get, put, get-put}
use picoclaw.Auth.{
  AuthCredential, AuthStore, AuthFile, missing, unreadable, no_credentials, encoded, Io,
  stopped_short, malformed, decode_failed, get_credential, set_credential, delete_credential,
  save_store, load_store, found_in, changed, write_store,
}

get-save_store :
    (io : Io) (other : String) (s : AuthStore) (f : AuthFile)
    → (save_store io s f).1 ≡ none
    → get_credential other (save_store io s f).0 ≡ inr (get s other)
unfolding save_store write_store get_credential found_in load_store
get-save_store io other s f h = ground arith

get-save_store-put :
    (io : Io) (provider other : String) (c : AuthCredential) (s : AuthStore) (f : AuthFile)
    → (save_store io (put s provider c) f).1 ≡ none
    → get_credential other (save_store io (put s provider c) f).0
      ≡ (if str_eq other provider then inr (some c) else inr (get s other))
get-save_store-put io provider other c s f h =
    ground (arith, get-save_store io other (put s provider c) f h, get-put s provider other c)

-- After SetCredential without an error the provider has the new credential and every other the one it
-- had.
pub get-set_credential :
    (io : Io) (provider other : String) (c : AuthCredential) (f : AuthFile)
    → (set_credential io provider c f).1 ≡ none
    → get_credential other (set_credential io provider c f).0
      ≡ (if str_eq other provider then inr (some c) else get_credential other f)
unfolding set_credential get_credential found_in load_store changed
get-set_credential io provider other c missing h =
    get-save_store-put io provider other c [] missing h
get-set_credential io provider other c unreadable h = absurd (cc)
get-set_credential io provider other c malformed h = absurd (cc)
get-set_credential io provider other c no_credentials h =
    get-save_store-put io provider other c [] no_credentials h
get-set_credential io provider other c (encoded s) h =
    get-save_store-put io provider other c s (encoded s) h

set_credential_malformed :
    (io : Io) (provider : String) (c : AuthCredential) (f : AuthFile) (s : AuthStore)
    → load_store f ≡ inr s
    → io.mkdir_ok ≡ true
    → io.marshal_ok ≡ true
    → io.write ≡ stopped_short
    → (set_credential io provider c f).0 ≡ malformed
unfolding set_credential changed save_store write_store
set_credential_malformed io provider c f s loaded dir marshal short =
    rw (loaded, changed) (ground arith)

-- A save of a credential that stops short loses all: no provider's credential can be read afterwards, and
-- no credential can be stored or deleted, whatever the operating system answers.
set_credential_torn :
    (io io' : Io) (provider other : String) (c d : AuthCredential) (f : AuthFile) (s : AuthStore)
    → load_store f ≡ inr s
    → io.mkdir_ok ≡ true
    → io.marshal_ok ≡ true
    → io.write ≡ stopped_short
    → (let torn = (set_credential io provider c f).0 in
        (get_credential other torn ≡ inl decode_failed)
        × (set_credential io' other d torn ≡ (torn, some decode_failed))
        × (delete_credential io' other torn ≡ (torn, some decode_failed)))
unfolding set_credential delete_credential get_credential changed load_store found_in
set_credential_torn io io' provider other c d f s loaded dir marshal short =
    rw (set_credential_malformed io provider c f s loaded dir marshal short) (refl, refl, refl)
