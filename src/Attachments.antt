-- ===== src/Attachments.antt =====
-- pkg/attachments/store.go: the records of the files that users have sent, and their file. Paths, the
-- copies of files, identifiers and readings of the clock are arguments.
pub mod Reload
mod Examples
use picoclaw.Prelude.{
  String, ◌⊎◌, inl, inr, Bool, true, false, not, Option, none, some, List, [], ◌∷◌, str_eq,
  if◌then◌else◌,
}
use package.text.Mathlib.Text.{starts_with}
use picoclaw.Prelude.Int.{ℤ}
use picoclaw.Prelude.Dict.{Dict, get, put}
use picoclaw.State.{Time}

pub record Record : Type 0 where
  pub id : String
  pub channel : String
  pub chat_id : String
  pub user_id : String
  pub message_id : String
  pub name : String
  pub stored_path : String
  pub mime_type : String
  pub kind : String
  pub size_bytes : ℤ
  pub sha256 : String
  pub created_at : Time
  pub imported_path : String

-- A file holds the JSON of records, or bytes that do not decode.
pub data Content : Type 0 where
  encoded : List Record → Content
  torn : Content

-- The store with its two files, that of the state and the temporary one.
pub record Store : Type 0 where
  pub root_path : String
  pub records : Dict Record
  pub state_file : Option Content
  pub temp_file : Option Content

-- What can become of os.WriteFile.
pub data WriteOutcome : Type 0 where
  not_opened stopped_short written : WriteOutcome

pub record SaveIo : Type 0 where
  pub marshal_ok : Bool
  pub write : WriteOutcome
  pub rename_ok : Bool

pub data StoreError : Type 0 where
  stat_failed not_regular mkdir_failed copy_failed not_found marshal_failed write_failed
        rename_failed :
      StoreError

unfoldable pub values : Dict Record → List Record
values [] = []
values (entry ∷ m) = entry.1 ∷ values m

-- The temporary file takes the place of the state's file, or is removed.
unfoldable pub renamed : Bool → List Record → Store → Store × Option StoreError
renamed true rs s = (record s { state_file = some (encoded rs); temp_file = none }, none)
renamed false rs s = (record s { temp_file = none }, some rename_failed)

unfoldable pub after_write : WriteOutcome → Bool → List Record → Store → Store × Option StoreError
unfolding renamed
after_write not_opened rename_ok rs s = (s, some write_failed)
after_write stopped_short rename_ok rs s = (record s { temp_file = some torn }, some write_failed)
after_write written rename_ok rs s = renamed rename_ok rs s

unfoldable pub save_locked : SaveIo → Store → Store × Option StoreError
unfolding after_write
save_locked io s =
    if io.marshal_ok
    then after_write io.write io.rename_ok (values s.records) s
    else (s, some marshal_failed)

unfoldable pub by_id : List Record → Dict Record → Dict Record
by_id [] out = out
by_id (r ∷ rs) out = by_id rs (put out r.id r)

unfoldable pub read_records : Option Content → Dict Record → Dict Record
read_records none records = records
read_records (some torn) records = []
read_records (some (encoded rs)) records = by_id rs []

-- A state file that cannot be read leaves the records as they are, and its error is dropped by NewStore.
unfoldable pub load : Bool → Store → Store
unfolding read_records
load readable s = if readable then record s { records = read_records s.state_file s.records } else s

unfoldable pub new_store : Bool → String → Option Content → Option Content → Store
new_store readable root state_file temp_file =
    load readable
      (record { root_path = root; records = []; state_file = state_file; temp_file = temp_file })

-- What the operating system answers while a file is stored: whether it is regular, if it is there;
-- whether the directory of the day is; the size and the sum of the copy; then the answers to the save.
pub record StoreIo : Type 0 where
  pub regular : Option Bool
  pub mkdir_ok : Bool
  pub copy : Option (ℤ × String)
  pub save : SaveIo

-- The arguments of SaveFromLocalFile, and the names that it makes up.
pub record LocalFile : Type 0 where
  pub channel : String
  pub chat_id : String
  pub user_id : String
  pub message_id : String
  pub sanitized_name : String
  pub base_name : String
  pub mime_type : String
  pub kind : String
  pub dest_path : String → String
  pub id : String
  pub now : Time

stored_name : LocalFile → String
stored_name f = if str_eq f.sanitized_name "" then f.base_name else f.sanitized_name

unfoldable pub record_of : LocalFile → ℤ → String → Record
unfolding stored_name
record_of f size sum = record {
  id = f.id;
  channel = f.channel;
  chat_id = f.chat_id;
  user_id = f.user_id;
  message_id = f.message_id;
  name = stored_name f;
  stored_path = f.dest_path (stored_name f);
  mime_type = f.mime_type;
  kind = f.kind;
  size_bytes = size;
  sha256 = sum;
  created_at = f.now;
  imported_path = "";
}

-- The record, or the error of the save.
unfoldable pub or_failed : Record → Store × Option StoreError → Store × (StoreError ⊎ Record)
or_failed r (s, none) = (s, inr r)
or_failed r (s, some e) = (s, inl e)

-- The record goes into the table before the table is saved.
unfoldable pub enter : SaveIo → Record → Store → Store × (StoreError ⊎ Record)
unfolding or_failed
enter io r s = or_failed r (save_locked io (record s { records = put s.records r.id r }))

unfoldable pub copied :
    LocalFile → SaveIo → Option (ℤ × String) → Store → Store × (StoreError ⊎ Record)
copied f io none s = (s, inl copy_failed)
copied f io (some (size, sum)) s = enter io (record_of f size sum) s

unfoldable pub stat_done : StoreIo → LocalFile → Option Bool → Store → Store × (StoreError ⊎ Record)
unfolding copied
stat_done io f none s = (s, inl stat_failed)
stat_done io f (some false) s = (s, inl not_regular)
stat_done io f (some true) s =
    if not io.mkdir_ok then (s, inl mkdir_failed) else copied f io.save io.copy s

unfoldable pub save_from_local_file : StoreIo → LocalFile → Store → Store × (StoreError ⊎ Record)
unfolding stat_done
save_from_local_file io f s = stat_done io f io.regular s

unfoldable pub get_by_id : String → Store → Option Record
get_by_id id s = get s.records id

unfoldable pub marked : SaveIo → String → String → Option Record → Store → Store × Option StoreError
marked io id path none s = (s, some not_found)
marked io id path (some r) s =
    save_locked io (record s { records = put s.records id (record r { imported_path = path }) })

unfoldable pub mark_imported : SaveIo → String → String → Store → Store × Option StoreError
unfolding marked
mark_imported io id path s = marked io id path (get s.records id) s

-- `abs` is filepath.Abs, which may fail.
unfoldable pub is_in_root : (String → Option String) → String → Store → Bool
is_in_root abs path s = elim (abs path) [
  | none ↦ false
  | some p ↦ elim (abs s.root_path) [ none ↦ false | some root ↦ starts_with p root ]
]
