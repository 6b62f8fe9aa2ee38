-- ===== src/Session/Saving.antt =====
-- Save of pkg/session/manager.go under a crash and under errors.
use picoclaw.Prelude.{
  ℕ, zero, suc, String, ◌≡◌, refl, ◌∙◌, ◌≢◌, ◌⊎◌, inl, inr, true, none, some, List, [], ◌∷◌, arith,
  str_eq, eq_iff, eq_refl, if◌then◌else◌, Bool-cases, is_some, take, All,
}
use picoclaw.Prelude.Dict.{Dict, get, get-put, get-delete}
use picoclaw.Session.{Session, encoded, File, regular, SessionManager}
use picoclaw.Session.Files.{
  FileOp, moved, create, fill, rename, remove, finish, in_temp, SaveIo, run_ops, save_steps, store,
  snapshot, session_file, refused_name, sanitize_filename,
}

-- An operation on the temporary file alone.
abbrev pub OnTemp : String → FileOp → Type 0
OnTemp temp (create n) = n ≡ temp
OnTemp temp (fill n s) = n ≡ temp
OnTemp temp (rename from to) = ⊥
OnTemp temp (remove n) = n ≡ temp

abbrev pub whole_ops : String → String → Session → List FileOp
whole_ops temp target s = create temp ∷ fill temp s ∷ rename temp target ∷ []

pub finish_shape :
    (io : SaveIo) (temp target : String) (s : Session)
    → (All (OnTemp temp) (finish io temp target s).0 × (is_some (finish io temp target s).1 ≡ true))
      ⊎ (finish io temp target s ≡ (whole_ops temp target s, none))
unfolding finish
finish_shape io temp target s = ground arith

-- A save touches the temporary file alone, or is the whole sequence that ends with the rename.
pub save_shape :
    (io : SaveIo) (key temp : String) (s : Session) (sm : SessionManager)
    → io.temp_name ≡ some temp
    → get sm.sessions key ≡ some s
    → (All (OnTemp temp) (save_steps io key sm).0
        × ((sm.storage ≡ "") ⊎ (is_some (save_steps io key sm).1 ≡ true)))
      ⊎ (save_steps io key sm ≡ (whole_ops temp (session_file key) (snapshot s), none))
unfolding save_steps
save_shape io key temp s sm t f = elim (Bool-cases (str_eq sm.storage "")) [
  | inl off ↦ rw off (inl (tt, inl ((eq_iff sm.storage "").0 off)))
  | inr on ↦ elim (Bool-cases (refused_name (sanitize_filename key))) [
    | inl bad ↦ rw (on, bad) (inl (tt, inr refl))
    | inr good ↦ elim (Bool-cases io.marshal_ok) [
      | inl made ↦
          simp (on, good, f)
            (unfold store in_temp in
              simp (made, t)
                (elim (finish_shape io temp (session_file key) (snapshot s)) [
                  | inl a ↦ inl (a.0, inr a.1)
                  | inr e ↦ inr e
                ]))
      | inr not_made ↦ simp (on, good, f) (unfold store in rw not_made (inl (tt, inr refl)))
    ]
  ]
]

get-run_ops-OnTemp :
    (temp n : String) (ops : List FileOp) (d : Dict File)
    → All (OnTemp temp) ops
    → n ≢ temp
    → get (run_ops ops d) n ≡ get d n
unfolding run_ops
get-run_ops-OnTemp temp n [] d a h = refl
get-run_ops-OnTemp temp n (create t ∷ ops) d a h =
    get-run_ops-OnTemp temp n ops _ a.1 h ∙ rw get-put (ground (arith, eq_iff n t, a.0))
get-run_ops-OnTemp temp n (fill t s ∷ ops) d a h =
    get-run_ops-OnTemp temp n ops _ a.1 h ∙ rw get-put (ground (arith, eq_iff n t, a.0))
get-run_ops-OnTemp temp n (rename t u ∷ ops) d a h = absurd a.0
get-run_ops-OnTemp temp n (remove t ∷ ops) d a h =
    get-run_ops-OnTemp temp n ops _ a.1 h ∙ rw get-delete (ground (arith, eq_iff n t, a.0))

All-take : (P : FileOp → Type 0) (k : ℕ) (ops : List FileOp) → All P ops → All P (take k ops)
All-take P zero ops a = tt
All-take P (suc k) [] a = tt
All-take P (suc k) (op ∷ ops) a = (a.0, All-take P k ops a.1)

-- After the whole sequence the target is new, and all files but the two are untouched.
pub get-run_ops-whole_ops :
    (temp target : String) (s : Session) (d : Dict File) (n : String)
    → temp ≢ target
    → n ≢ temp
    → get (run_ops (whole_ops temp target s) d) n
      ≡ (if str_eq n target then some (regular (encoded s)) else get d n)
unfolding run_ops
get-run_ops-whole_ops temp target s d n apart other =
    simp (get-put, eq_refl)
      (unfold moved in simp (get-put, get-delete) (ground (arith, eq_iff n target, eq_iff n temp)))

whole_crash_safe :
    (temp target : String) (s : Session) (d : Dict File) (k : ℕ) (n : String)
    → temp ≢ target
    → n ≢ temp
    → let d' = run_ops (take k (whole_ops temp target s)) d in
      (get d' n ≡ get d n) ⊎ ((n ≡ target) × (get d' n ≡ some (regular (encoded s))))
whole_crash_safe temp target s d zero n apart other = inl (unfold run_ops in refl)
whole_crash_safe temp target s d (suc zero) n apart other =
    inl (get-run_ops-OnTemp temp n (create temp ∷ []) d (refl, tt) other)
whole_crash_safe temp target s d (suc (suc zero)) n apart other =
    inl (get-run_ops-OnTemp temp n (create temp ∷ fill temp s ∷ []) d (refl, (refl, tt)) other)
whole_crash_safe temp target s d (suc (suc (suc zero))) n apart other =
    ground (arith, get-run_ops-whole_ops temp target s d n apart other, eq_iff n target)
whole_crash_safe temp target s d (suc (suc (suc (suc k)))) n apart other =
    ground (arith, get-run_ops-whole_ops temp target s d n apart other, eq_iff n target)

-- Stop a save after any number of its operations, whatever the operating system answers: every file but
-- the temporary one and the session's is untouched, and the session's own is as before or holds exactly
-- the snapshot of the session.
pub session_save_crash_safe :
    (io : SaveIo) (key temp : String) (s : Session) (sm : SessionManager) (k : ℕ) (n : String)
    → io.temp_name ≡ some temp
    → get sm.sessions key ≡ some s
    → temp ≢ session_file key
    → n ≢ temp
    → let d = run_ops (take k (save_steps io key sm).0) sm.files in
      (get d n ≡ get sm.files n)
      ⊎ ((n ≡ session_file key) × (get d n ≡ some (regular (encoded (snapshot s)))))
unfolding save_steps run_ops
session_save_crash_safe io key temp s sm k n t f apart other =
    elim (save_shape io key temp s sm t f) [
      | inl on_temp ↦ inl (
          get-run_ops-OnTemp temp n (take k (save_steps io key sm).0) sm.files
            (All-take (OnTemp temp) k (save_steps io key sm).0 on_temp.0) other)
      | inr whole ↦
          rw whole (whole_crash_safe temp (session_file key) (snapshot s) sm.files k n apart other)
    ]
