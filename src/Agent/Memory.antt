-- ===== src/Agent/Memory.antt =====
-- pkg/agent/memory.go: the long-term memory and the daily notes of the agent. The files are a map from
-- paths to texts; what a date looks like and how paths join are arguments.
use picoclaw.Prelude.{
  ℕ, zero, suc, String, ◌≡◌, Bool, true, false, Option, none, some, List, [], ◌∷◌, ◌++◌, arith,
  str_eq, eq_refl, ◌==◌, if◌then◌else◌, length,
}
use Prim.Native.String.{◌++◌ as append}
use picoclaw.Prelude.Text.{concat}
use picoclaw.Prelude.Strings.{front, join}
use picoclaw.Prelude.Dict.{Dict, get, put, get-put}

-- What becomes of os.WriteFile; a write that stops short leaves some text.
pub data WriteOutcome : Type 0 where
  not_opened written : WriteOutcome
  stopped_short : String → WriteOutcome

-- `date n` is the day n days before today as YYYYMMDD, `long_date` today as YYYY-MM-DD.
pub record MemoryHost : Type 0 where
  pub join_path : String → String → String
  pub date : ℕ → String
  pub long_date : String

pub record MemoryStore : Type 0 where
  pub memory_dir : String
  pub memory_file : String

write_file : WriteOutcome → String → String → Dict String → Dict String × Bool
write_file not_opened path content files = (files, false)
write_file (stopped_short left) path content files = (put files path left, false)
write_file written path content files = (put files path content, true)

or_nothing : Option String → String
or_nothing none = ""
or_nothing (some s) = s

with_note : String → String → String → String
with_note long_date old content =
    if str_eq old ""
    then concat ("# " ∷ long_date ∷ "\n\n" ∷ content ∷ [])
    else concat (old ∷ "\n" ∷ content ∷ [])

titled : String → String → List String
titled title body = if str_eq body "" then [] else concat (title ∷ "\n\n" ∷ body ∷ []) ∷ []

module _ (h : MemoryHost) where
  unfoldable pub new_memory_store : String → MemoryStore
  new_memory_store workspace =
      let dir = h.join_path workspace "memory" in
      record { memory_dir = dir; memory_file = h.join_path dir "MEMORY.md" }

  -- The note of the day n days before today.
  unfoldable pub note_file : MemoryStore → ℕ → String
  note_file ms n =
      h.join_path (h.join_path ms.memory_dir (front 6 (h.date n))) (append (h.date n) ".md")

  unfoldable pub read_long_term : MemoryStore → Dict String → String
  unfolding or_nothing
  read_long_term ms files = or_nothing (get files ms.memory_file)

  unfoldable pub write_long_term :
      WriteOutcome → String → MemoryStore → Dict String → Dict String × Bool
  unfolding write_file
  write_long_term outcome content ms files = write_file outcome ms.memory_file content files

  unfoldable pub read_today : MemoryStore → Dict String → String
  unfolding or_nothing
  read_today ms files = or_nothing (get files (note_file ms 0))

  unfoldable pub append_today :
      WriteOutcome → String → MemoryStore → Dict String → Dict String × Bool
  unfolding write_file with_note
  append_today outcome content ms files =
      write_file outcome (note_file ms 0) (with_note h.long_date (read_today ms files) content)
        files

  present : Option String → List String
  present none = []
  present (some note) = note ∷ []

  notes_from : MemoryStore → Dict String → ℕ → ℕ → List String
  unfolding present
  notes_from ms files zero day = []
  notes_from ms files (suc days) day =
      present (get files (note_file ms day)) ++ notes_from ms files days (suc day)

  unfoldable pub get_recent_daily_notes : MemoryStore → Dict String → ℕ → String
  unfolding notes_from
  get_recent_daily_notes ms files days = join "\n\n---\n\n" (notes_from ms files days 0)

  unfoldable pub get_memory_context : MemoryStore → Dict String → String
  unfolding titled
  get_memory_context ms files =
      let parts =
        titled "## Long-term Memory" (read_long_term ms files)
        ++ titled "## Recent Daily Notes" (get_recent_daily_notes ms files 3) in
      if length parts == 0 then "" else concat ("# Memory\n\n" ∷ join "\n\n---\n\n" parts ∷ [])

  -- After an append without an error, the note of today is the header or the old note with the content,
  -- and the long-term memory and the notes of other days are as they were.
  read_today-append_today :
      (content : String) (ms : MemoryStore) (files : Dict String) (n : ℕ)
      → str_eq ms.memory_file (note_file ms 0) ≡ false
      → str_eq (note_file ms n) (note_file ms 0) ≡ false
      → (let files' = (append_today written content ms files).0 in
          (read_today ms files' ≡ with_note h.long_date (read_today ms files) content)
          × (read_long_term ms files' ≡ read_long_term ms files)
          × (get files' (note_file ms n) ≡ get files (note_file ms n)))
  unfolding append_today read_today read_long_term or_nothing write_file
  read_today-append_today content ms files n apart other =
      let note = with_note h.long_date (read_today ms files) content in
      let today = note_file ms 0 in
      ground (
        arith,
        eq_refl today,
        get-put files today today note,
        get-put files today ms.memory_file note,
        get-put files today (note_file ms n) note,
      )
