-- ===== src/Attachments/Reload.antt =====
-- The table of pkg/attachments/store.go after a restart.
use picoclaw.Prelude.{
  String, ◌≡◌, refl, sym, ap, ◌∙◌, ◌⊎◌, inl, inr, Bool, true, false, Option, none, some, [], ◌∷◌,
  arith, str_eq, eq_iff, if◌then◌else◌, Bool-cases,
}
use picoclaw.Prelude.Dict.{Dict, get, put, get-put}
use picoclaw.Prelude.Int.{ℤ}
use picoclaw.Attachments.{
  Record, renamed, after_write, read_records, copied, stat_done, mkdir_failed, WriteOutcome,
  not_opened, stopped_short, marshal_failed, encoded, Store, written, SaveIo, StoreError, values,
  save_locked, by_id, load, new_store, get_by_id, StoreIo, LocalFile, record_of, or_failed, enter,
  save_from_local_file,
}

-- Each record stands once, under its own identifier.
abbrev pub Keyed : Dict Record → Type 0
Keyed [] = Unit
Keyed (entry ∷ m) = (entry.1.id ≡ entry.0) × (get m entry.0 ≡ none) × Keyed m

get-put_apart :
    (m : Dict Record) (key other : String) (r : Record)
    → str_eq other key ≡ false
    → get (put m key r) other ≡ get m other
get-put_apart m key other r differs = get-put m key other r ∙ rw differs refl

Keyed-put : (m : Dict Record) (r : Record) → Keyed m → Keyed (put m r.id r)
unfolding put get
Keyed-put [] r keyed = (refl, refl, tt)
Keyed-put (entry ∷ m) r (named, once, keyed) = elim (Bool-cases (str_eq r.id entry.0)) [
  | inl same ↦ simp same (refl, ap (get m) ((eq_iff r.id entry.0).0 same) ∙ once, keyed)
  | inr differs ↦ simp differs (
    named,
    ground (arith, get-put m r.id entry.0 r, once, eq_iff r.id entry.0, eq_iff entry.0 r.id),
    Keyed-put m r keyed,
  )
]

abbrev or_else : Option Record → Option Record → Option Record
or_else none later = later
or_else (some r) later = some r

or_else-none : (o : Option Record) → or_else o none ≡ o
or_else-none none = refl
or_else-none (some r) = refl

put_named :
    (out : Dict Record) (key : String) (r : Record) → r.id ≡ key → get (put out r.id r) key ≡ some r
put_named out key r named = get-put out r.id key r ∙ ground (arith, eq_iff key r.id)

-- Reading a table back gives each identifier its record.
get-by_id :
    (m : Dict Record) (out : Dict Record) (key : String)
    → Keyed m
    → get (by_id (values m) out) key ≡ or_else (get m key) (get out key)
unfolding by_id values get
get-by_id [] out key keyed = refl
get-by_id (entry ∷ m) out key (named, once, keyed) = elim (Bool-cases (str_eq key entry.0)) [
  | inl same ↦
      let this : key ≡ entry.0 = (eq_iff key entry.0).0 same in
      let missing : get m key ≡ none = ap (get m) this ∙ once in
      rw (get-by_id m (put out entry.1.id entry.1) key keyed, missing, same)
        (put_named out key entry.1 (named ∙ sym this))
  | inr differs ↦
      rw
        (
          get-by_id m (put out entry.1.id entry.1) key keyed,
          get-put_apart out entry.1.id key entry.1 (ap (str_eq key) named ∙ differs),
          differs,
        )
        refl
]

-- What a save without an error leaves in the file.
abbrev Saved : Store → Store × Option StoreError → Type 0
Saved s r = r.0.state_file ≡ some (encoded (values s.records))

Saved-renamed :
    (s : Store) (ok : Bool)
    → (renamed ok (values s.records) s).1 ≡ none
    → Saved s (renamed ok (values s.records) s)
unfolding renamed
Saved-renamed s true h = refl
Saved-renamed s false h = absurd (cc)

Saved-after_write :
    (s : Store) (write : WriteOutcome) (ok : Bool)
    → (after_write write ok (values s.records) s).1 ≡ none
    → Saved s (after_write write ok (values s.records) s)
unfolding after_write
Saved-after_write s not_opened ok h = absurd (cc)
Saved-after_write s stopped_short ok h = absurd (cc)
Saved-after_write s written ok h = Saved-renamed s ok h

Saved-save_locked :
    (io : SaveIo) (s : Store) → (save_locked io s).1 ≡ none → Saved s (save_locked io s)
unfolding save_locked
Saved-save_locked io s h = elim (Bool-cases io.marshal_ok) [
  | inl encodes ↦
      let same : save_locked io s ≡ after_write io.write io.rename_ok (values s.records) s =
        rw encodes refl in
      ap (λ r. r.0.state_file) same
      ∙ Saved-after_write s io.write io.rename_ok (sym (ap (λ r. r.1) same) ∙ h)
  | inr fails ↦
      let same : save_locked io s ≡ (s, some marshal_failed) = rw fails refl in absurd (cc)
]

get-reopened :
    (s s' : Store) (key : String)
    → Keyed s.records
    → s'.state_file ≡ some (encoded (values s.records))
    → get_by_id key (new_store true s.root_path s'.state_file s'.temp_file) ≡ get s.records key
unfolding get_by_id new_store load read_records get
get-reopened s s' key keyed saved =
    rw (saved, get-by_id s.records [] key keyed) (or_else-none (get s.records key))

entered :
    (r r' : Record) (p : Store × Option StoreError)
    → (or_failed r p).1 ≡ inr r'
    → (p.1 ≡ none) × (r ≡ r') × ((or_failed r p).0 ≡ p.0)
unfolding or_failed
entered r r' (s, none) h = (refl, cc, refl)
entered r r' (s, some e) h = absurd (cc)

-- The store with a record in its table.
abbrev with_record : Record → Store → Store
with_record r s = record s { records = put s.records r.id r }

entered_reopened :
    (io : SaveIo) (r r' : Record) (s : Store) (other : String)
    → Keyed s.records
    → (enter io r s).1 ≡ inr r'
    → let s' = (enter io r s).0 in
      get_by_id other (new_store true s.root_path s'.state_file s'.temp_file)
      ≡ (if str_eq other r'.id then some r' else get_by_id other s)
unfolding enter get_by_id
entered_reopened io r r' s other keyed ok =
    let p = save_locked io (with_record r s) in
    let (saved, same, store) = entered r r' p ok in
    get-reopened (with_record r s) (or_failed r p).0 other (Keyed-put s.records r keyed)
      (ap (λ t. t.state_file) store ∙ Saved-save_locked io (with_record r s) saved)
    ∙ get-put s.records r.id other r
    ∙ ap (λ x. if str_eq other x.id then some x else get s.records other) same

-- Each record that the operation has returned, and each that was there, is found after a restart.
abbrev Reopened : Store → Store × (StoreError ⊎ Record) → Record → String → Type 0
Reopened s p r other =
    get_by_id other (new_store true s.root_path p.0.state_file p.0.temp_file)
    ≡ (if str_eq other r.id then some r else get_by_id other s)

copied-Reopened :
    (f : LocalFile) (io : SaveIo) (copy : Option (ℤ × String)) (s : Store) (r : Record)
    (other : String)
    → Keyed s.records
    → (copied f io copy s).1 ≡ inr r
    → Reopened s (copied f io copy s) r other
unfolding copied
copied-Reopened f io none s r other keyed ok = absurd (cc)
copied-Reopened f io (some (size, sum)) s r other keyed ok =
    entered_reopened io (record_of f size sum) r s other keyed ok

stat_done-Reopened :
    (io : StoreIo) (f : LocalFile) (regular : Option Bool) (s : Store) (r : Record) (other : String)
    → Keyed s.records
    → (stat_done io f regular s).1 ≡ inr r
    → Reopened s (stat_done io f regular s) r other
unfolding stat_done
stat_done-Reopened io f none s r other keyed ok = absurd (cc)
stat_done-Reopened io f (some false) s r other keyed ok = absurd (cc)
stat_done-Reopened io f (some true) s r other keyed ok = elim (Bool-cases io.mkdir_ok) [
  | inl made ↦
      let same : stat_done io f (some true) s ≡ copied f io.save io.copy s = rw made refl in
      rw same (copied-Reopened f io.save io.copy s r other keyed (sym (ap (λ p. p.1) same) ∙ ok))
  | inr fails ↦
      let same : stat_done io f (some true) s ≡ (s, inl mkdir_failed) = rw fails refl in absurd (cc)
]

-- A record that SaveFromLocalFile has returned is there in a store made on the files afterwards, and so
-- is each other record of the table, which holds each record once under its identifier.
pub save_from_local_file-new_store :
    (io : StoreIo) (f : LocalFile) (s : Store) (r : Record) (other : String)
    → Keyed s.records
    → (save_from_local_file io f s).1 ≡ inr r
    → let s' = (save_from_local_file io f s).0 in
      get_by_id other (new_store true s.root_path s'.state_file s'.temp_file)
      ≡ (if str_eq other r.id then some r else get_by_id other s)
unfolding save_from_local_file
save_from_local_file-new_store io f s r other keyed ok =
    stat_done-Reopened io f io.regular s r other keyed ok
