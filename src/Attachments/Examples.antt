-- ===== src/Attachments/Examples.antt =====
-- The theorem about attachments at a concrete file.
use picoclaw.Prelude.{◌≡◌, refl, inr, true, none, some, [], ◌∷◌, str_eq, if◌then◌else◌}
use picoclaw.Prelude.Int.{pos}
use picoclaw.Prelude.Dict.{get}
use picoclaw.Attachments.{
  Record, Store, written, StoreIo, LocalFile, record_of, save_from_local_file, stat_done, copied,
  enter, or_failed, save_locked, after_write, renamed, new_store, get_by_id,
}
use picoclaw.Attachments.Reload.{Keyed, save_from_local_file-new_store}

abbrev photo : LocalFile
photo = record {
  channel = "slack";
  chat_id = "7";
  user_id = "ann";
  message_id = "m1";
  sanitized_name = "photo.png";
  base_name = "tmp1";
  mime_type = "image/png";
  kind = "image";
  dest_path = λ name. name;
  id = "att_2";
  now = pos 5;
}

abbrev older : Record
older = record (record_of photo (pos 3) "ff") { id = "att_1" }

abbrev store : Store
store = record {
  root_path = "/attachments";
  records = ("att_1", older) ∷ [];
  state_file = none;
  temp_file = none;
}

abbrev good_io : StoreIo
good_io = record {
  regular = some true;
  mkdir_ok = true;
  copy = some (pos 12, "ab");
  save = record { marshal_ok = true; write = written; rename_ok = true };
}

store-Keyed : Keyed store.records
unfolding get
store-Keyed = (refl, refl, tt)

photo_saved : (save_from_local_file good_io photo store).1 ≡ inr (record_of photo (pos 12) "ab")
unfolding save_from_local_file stat_done copied enter or_failed save_locked after_write renamed
photo_saved = refl

save_from_local_file-new_store_example :
    let s' = (save_from_local_file good_io photo store).0 in
    let r = record_of photo (pos 12) "ab" in
    get_by_id "att_1" (new_store true "/attachments" s'.state_file s'.temp_file)
    ≡ (if str_eq "att_1" r.id then some r else get_by_id "att_1" store)
save_from_local_file-new_store_example =
    save_from_local_file-new_store good_io photo store (record_of photo (pos 12) "ab") "att_1"
      store-Keyed photo_saved
