-- ===== src/Session/Directory.antt =====
-- What loadSessions of pkg/session/manager.go finds in a directory.
use picoclaw.Prelude.{
  String, ◌≡◌, refl, sym, ◌∙◌, ◌≢◌, inl, inr, true, none, some, [], ◌∷◌, arith, str_eq, eq_iff,
  eq_refl, Bool-cases,
}
use Prim.Native.String.{◌++◌ as append}
use text.Mathlib.TextLemmas.{cons-append}
use picoclaw.Prelude.Dict.{Dict, get, put, delete, get-put, get-delete}
use picoclaw.Prelude.Text.{has_suffix}
use picoclaw.Session.{Session, encoded, torn, File, regular, directory}
use picoclaw.Session.Files.{session_file, load_file, load_sessions}

-- A directory names each entry once, and names a session's file after its key.
abbrev pub Unique : Dict File → Type 0
Unique [] = Unit
Unique (e ∷ d) = (get d e.0 ≡ none) × Unique d

abbrev pub Named : Dict File → Type 0
Named d =
    (n : String) (s : Session)
    → get d n ≡ some (regular (encoded s))
    → has_suffix n ".json" ≡ true
    → n ≡ session_file s.key

pub record IsStorage (d : Dict File) : Type 0 where
  pub unique : Unique d
  pub named : Named d

has_suffix-append : (s : String) → has_suffix (append s ".json") ".json" ≡ true
unfolding has_suffix
has_suffix-append String.[] = refl
has_suffix-append (String.◌∷◌ c s) = rw cons-append (ground (arith, has_suffix-append s))

pub has_suffix-session_file : (key : String) → has_suffix (session_file key) ".json" ≡ true
unfolding session_file
has_suffix-session_file key = has_suffix-append _

pub Unique-put : (d : Dict File) (k : String) (v : File) → Unique d → Unique (put d k v)
unfolding put get
Unique-put [] k v u = (refl, tt)
Unique-put (e ∷ d) k v u = elim (Bool-cases (str_eq k e.0)) [
  | inl same ↦ rw same (rw ((eq_iff k e.0).0 same) u.0, u.1)
  | inr other ↦
      rw other
        (get-put d k e.0 v ∙ ground (arith, eq_iff k e.0, eq_iff e.0 k), Unique-put d k v u.1)
]

pub Unique-delete : (d : Dict File) (k : String) → Unique d → Unique (delete d k)
unfolding delete
Unique-delete [] k u = tt
Unique-delete (e ∷ d) k u = elim (Bool-cases (str_eq k e.0)) [
  | inl same ↦ rw same (Unique-delete d k u.1)
  | inr other ↦ rw other (get-delete d k e.0 ∙ ground arith, Unique-delete d k u.1)
]

Named-tail : (e : String × File) (d : Dict File) → Unique (e ∷ d) → Named (e ∷ d) → Named d
unfolding get
Named-tail e d u h n s g suffix = h n s (ground (arith, eq_iff n e.0, u.0)) suffix

get-tail :
    (n : String) (f : File) (d : Dict File) (name : String)
    → get ((n, f) ∷ d) name ≡ none
    → get d name ≡ none
unfolding get
get-tail n f d name h = ground arith

-- An entry that is not the file of `key` does not load a session for it.
get-load_file_other :
    (key n : String) (f : File) (d : Dict File) (m : Dict Session)
    → Named ((n, f) ∷ d)
    → n ≢ session_file key
    → get (load_file n f m) key ≡ get m key
unfolding load_file
get-load_file_other key n directory d m h a = refl
get-load_file_other key n (regular torn) d m h a = refl
get-load_file_other key n (regular (encoded s)) d m h a = elim (Bool-cases (has_suffix n ".json")) [
  | inl suffix ↦ rw suffix (
      get-put m s.key key s
      ∙ ground (arith, eq_iff key s.key, h n s (unfold get in rw eq_refl) suffix))
  | inr none_such ↦ rw none_such
]

head_absent :
    (n : String) (f : File) (d : Dict File) (name : String)
    → get ((n, f) ∷ d) name ≡ none
    → n ≢ name
unfolding get
head_absent n f d name h = ground (arith, eq_iff name n)

get-load_sessions_absent :
    (key : String) (d : Dict File) (m : Dict Session)
    → Unique d
    → Named d
    → get d (session_file key) ≡ none
    → get (load_sessions d m) key ≡ get m key
unfolding load_sessions
get-load_sessions_absent key [] m u h a = refl
get-load_sessions_absent key ((n, f) ∷ d) m u h a =
    get-load_sessions_absent key d (load_file n f m) u.1 (Named-tail (n, f) d u h)
      (get-tail n f d (session_file key) a)
    ∙ get-load_file_other key n f d m h (head_absent n f d (session_file key) a)

get-load_file_this :
    (n : String) (s : Session) (m : Dict Session)
    → n ≡ session_file s.key
    → get (load_file n (regular (encoded s)) m) s.key ≡ some s
unfolding load_file
get-load_file_this n s m e =
    let suffix : has_suffix n ".json" ≡ true = rw e (has_suffix-session_file s.key) in
    rw suffix (get-put m s.key s.key s ∙ rw eq_refl)

-- Loading finds the session that the file of its key holds.
pub get-load_sessions :
    (s : Session) (d : Dict File) (m : Dict Session)
    → Unique d
    → Named d
    → get d (session_file s.key) ≡ some (regular (encoded s))
    → get (load_sessions d m) s.key ≡ some s
unfolding load_sessions
get-load_sessions s [] m u h a = absurd (unfold get in cc)
get-load_sessions s ((n, f) ∷ d) m u h a = elim (Bool-cases (str_eq (session_file s.key) n)) [
  | inl this ↦
      let e = (eq_iff (session_file s.key) n).0 this in
      let content : f ≡ regular (encoded s) = unfold get in ground arith in
      get-load_sessions_absent s.key d (load_file n f m) u.1 (Named-tail (n, f) d u h) (rw e u.0)
      ∙ rw content (get-load_file_this n s m (sym e))
  | inr other ↦
      get-load_sessions s d (load_file n f m) u.1 (Named-tail (n, f) d u h)
        (unfold get in ground arith)
]

get-load_file_shared :
    (key n : String) (s : Session) (m : Dict Session)
    → s.key ≢ key
    → get (load_file n (regular (encoded s)) m) key ≡ get m key
unfolding load_file
get-load_file_shared key n s m h = elim (Bool-cases (has_suffix n ".json")) [
  | inl suffix ↦ rw suffix (get-put m s.key key s ∙ ground (arith, eq_iff key s.key))
  | inr none_such ↦ rw none_such
]

-- A file that holds another session hides that of `key`.
pub get-load_sessions_shared :
    (key : String) (s : Session) (d : Dict File) (m : Dict Session)
    → Unique d
    → Named d
    → get d (session_file key) ≡ some (regular (encoded s))
    → s.key ≢ key
    → get (load_sessions d m) key ≡ get m key
unfolding load_sessions
get-load_sessions_shared key s [] m u h a k = absurd (unfold get in cc)
get-load_sessions_shared key s ((n, f) ∷ d) m u h a k =
    elim (Bool-cases (str_eq (session_file key) n)) [
      | inl this ↦
          let e = (eq_iff (session_file key) n).0 this in
          let content : f ≡ regular (encoded s) = unfold get in ground arith in
          get-load_sessions_absent key d (load_file n f m) u.1 (Named-tail (n, f) d u h) (rw e u.0)
          ∙ rw content (get-load_file_shared key n s m k)
      | inr other ↦
          get-load_sessions_shared key s d (load_file n f m) u.1 (Named-tail (n, f) d u h)
            (unfold get in ground arith) k
          ∙ get-load_file_other key n f d m h (λ q. cc (other, eq_refl n, q))
    ]
