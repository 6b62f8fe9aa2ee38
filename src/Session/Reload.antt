-- ===== src/Session/Reload.antt =====
-- What loadSessions of pkg/session/manager.go finds after Save.
use picoclaw.Prelude.{
  String, ◌≡◌, sym, ap, ◌∙◌, ◌≢◌, ◌⊎◌, inl, inr, true, false, none, some, [], arith, str_eq, eq_iff,
  eq_refl, Bool-cases, is_some,
}
use picoclaw.Prelude.Dict.{Dict, get, get-put}
use picoclaw.Prelude.Text.{has_suffix}
use picoclaw.Session.{Session, encoded, File, regular, SessionManager}
use picoclaw.Session.Files.{
  SaveIo, moved, run_ops, save_steps, save, snapshot, session_file, load_sessions,
  new_session_manager,
}
use picoclaw.Session.Saving.{whole_ops, save_shape, get-run_ops-whole_ops}
use picoclaw.Session.Directory.{
  Unique, IsStorage, has_suffix-session_file, Unique-put, Unique-delete, get-load_sessions,
  get-load_sessions_shared,
}

whole_ops-Unique :
    (temp target : String) (s : Session) (d : Dict File)
    → Unique d
    → Unique (run_ops (whole_ops temp target s) d)
unfolding run_ops moved
whole_ops-Unique temp target s d u =
    simp (get-put, eq_refl)
      (Unique-put _ target (regular (encoded s))
        (Unique-delete _ temp (Unique-put _ temp _ (Unique-put d temp _ u))))

-- A save keeps the directory in order.
whole_ops-IsStorage :
    (temp : String) (s : Session) (d : Dict File)
    → IsStorage d
    → has_suffix temp ".json" ≡ false
    → temp ≢ session_file s.key
    → IsStorage (run_ops (whole_ops temp (session_file s.key) s) d)
whole_ops-IsStorage temp s d i x apart = record {
  unique = whole_ops-Unique temp (session_file s.key) s d i.unique;
  named = λ n r g suffix.
      let off : n ≢ temp = λ q. cc (suffix, ap (λ k. has_suffix k ".json") q, x) in
      let w = get-run_ops-whole_ops temp (session_file s.key) s d n apart off in
      elim (Bool-cases (str_eq n (session_file s.key))) [
        | inl this ↦
            let e : s ≡ r = ground (arith, w, g, this) in
            (eq_iff n (session_file s.key)).0 this ∙ ap (λ (z : Session). session_file z.key) e
        | inr other ↦ i.named n r (ground (arith, w, g, other)) suffix
      ];
}

not_saved :
    (io : SaveIo) (s : Session) (sm : SessionManager)
    → sm.storage ≢ ""
    → (save io s.key sm).1 ≡ none
    → (sm.storage ≡ "") ⊎ (is_some (save_steps io s.key sm).1 ≡ true)
    → ⊥
unfolding save
not_saved io s sm st e (inl z) = st z
not_saved io s sm st e (inr z) = ground arith

-- Save, without an error, a session that is in memory under its own key: the program that is started
-- again finds it, less the images of its messages. The temporary file's name is not one of a session,
-- as os.CreateTemp makes it from "session-*.tmp".
pub get-save-new_session_manager :
    (io : SaveIo) (temp : String) (s : Session) (sm : SessionManager)
    → IsStorage sm.files
    → sm.storage ≢ ""
    → io.temp_name ≡ some temp
    → has_suffix temp ".json" ≡ false
    → get sm.sessions s.key ≡ some s
    → (save io s.key sm).1 ≡ none
    → get (new_session_manager sm.storage (save io s.key sm).0.files).sessions s.key
      ≡ some (snapshot s)
unfolding save new_session_manager
get-save-new_session_manager io temp s sm i st t x f e =
    let target = session_file s.key in
    let apart : temp ≢ target =
      λ q. cc (x, ap (λ n. has_suffix n ".json") q, has_suffix-session_file s.key) in
    elim (save_shape io s.key temp s sm t f) [
      | inl on_temp ↦ absurd (not_saved io s sm st e on_temp.1)
      | inr whole ↦
          let i' = whole_ops-IsStorage temp (snapshot s) sm.files i x (unfold snapshot in apart) in
          let found : get (load_sessions (run_ops (whole_ops temp target (snapshot s)) sm.files) [])
                s.key
              ≡ some (snapshot s) =
            unfold snapshot in
            get-load_sessions (snapshot s) (run_ops (whole_ops temp target (snapshot s)) sm.files)
              [] i'.unique i'.named
              (get-run_ops-whole_ops temp target (snapshot s) sm.files target apart
                  (λ q. apart (sym q))
                ∙ rw eq_refl) in
          simp whole (elim (Bool-cases (str_eq sm.storage "")) [
            | inl off ↦ absurd (st ((eq_iff sm.storage "").0 off))
            | inr on ↦ rw on found
          ])
    ]

-- Two keys that differ but read alike once ":" is "_", as "slack:general" and "slack_general", share a
-- file: when the second session is saved after the first, without an error, the first is gone after a restart.
pub save_collision_loses_session :
    (io : SaveIo) (temp : String) (s other : Session) (sm : SessionManager)
    → IsStorage sm.files
    → sm.storage ≢ ""
    → io.temp_name ≡ some temp
    → has_suffix temp ".json" ≡ false
    → get sm.sessions s.key ≡ some s
    → (save io s.key sm).1 ≡ none
    → session_file other.key ≡ session_file s.key
    → other.key ≢ s.key
    → get (new_session_manager sm.storage (save io s.key sm).0.files).sessions other.key ≡ none
unfolding save new_session_manager get
save_collision_loses_session io temp s other sm i st t x f e same k =
    let target = session_file s.key in
    let apart : temp ≢ target =
      λ q. cc (x, ap (λ n. has_suffix n ".json") q, has_suffix-session_file s.key) in
    elim (save_shape io s.key temp s sm t f) [
      | inl on_temp ↦ absurd (not_saved io s sm st e on_temp.1)
      | inr whole ↦
          let i' = whole_ops-IsStorage temp (snapshot s) sm.files i x (unfold snapshot in apart) in
          let there =
            get-run_ops-whole_ops temp target (snapshot s) sm.files target apart
              (λ q. apart (sym q)) in
          let gone : get (load_sessions (run_ops (whole_ops temp target (snapshot s)) sm.files) [])
                other.key
              ≡ none =
            get-load_sessions_shared other.key (snapshot s)
              (run_ops (whole_ops temp target (snapshot s)) sm.files) []
              (unfold snapshot in i'.unique) (unfold snapshot in i'.named)
              (rw same (there ∙ rw eq_refl)) (unfold snapshot in λ q. k (sym q)) in
          simp whole (elim (Bool-cases (str_eq sm.storage "")) [
            | inl off ↦ absurd (st ((eq_iff sm.storage "").0 off))
            | inr on ↦ rw on gone
          ])
    ]
