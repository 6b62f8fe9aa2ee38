-- ===== src/Session/Names.antt =====
-- Which sessions of pkg/session/manager.go can be saved, and which share a file.
use picoclaw.Prelude.{String, ◌≡◌, refl, ◌≢◌, true, some, arith, eq_iff}
use picoclaw.Prelude.Text.{contains_either}
use picoclaw.Session.{SessionManager}
use picoclaw.Session.Files.{SaveIo, invalid, save, refused_name, sanitize_filename}

contains_either-sanitize_filename :
    (key : String) → contains_either b'/' 92 (sanitize_filename key) ≡ contains_either b'/' 92 key
unfolding sanitize_filename contains_either
contains_either-sanitize_filename String.[] = refl
contains_either-sanitize_filename (String.◌∷◌ c s) =
    ground (arith, contains_either-sanitize_filename s)

-- A session whose key holds a slash or a backslash, as that of a chat "general/17.2" of the channel
-- "slack", is never written: Save returns the error and the directory stays as it is.
save_refuses_separators :
    (io : SaveIo) (key : String) (sm : SessionManager)
    → sm.storage ≢ ""
    → contains_either b'/' 92 key ≡ true
    → ((save io key sm).1 ≡ some invalid) × ((save io key sm).0 ≡ sm)
unfolding save refused_name
save_refuses_separators io key sm st h =
    ground (arith, contains_either-sanitize_filename key, eq_iff sm.storage "")
