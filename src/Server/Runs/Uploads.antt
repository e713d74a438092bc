-- ===== src/Server/Runs/Uploads.antt =====
-- src/server/Service.hpp and DataManager.hpp: an upload that can be recorded is kept.
use asyn_log_system.Server.DataManager.Reload.{saved-Stored, Stored}
use asyn_log_system.Server.Service.Effects.{
  set_content-SameBut, saved-SameBut, create_directory-IsNoDirectory, set_content-IsNoDirectory,
  IsNoDirectory,
}
use asyn_log_system.Server.Runs.Entries.{file_age-set_content, entry_of-set_content, file_age}
use asyn_log_system.Server.Disk.Laws.{
  create_directory-SameBut, set_content-now, create_directory-now, Writable,
}
use asyn_log_system.Server.Runs.Kept.{IsNoDirectory-kept, IsKept}
use asyn_log_system.Server.Runs.{from_age, entry_age, new_entry, recorded, CanRecord, IsKeepable}
use asyn_log_system.Server.Store.Coheres.{
  same_key, paths_differ, urls_differ, stored_path-dir, Coheres, IsPut,
}
use asyn_log_system.Prelude.{
  ◌∷◌, [], inr, Bool-cases, inl, append-nil, length, [], sym, some, ◌∙◌, ap, subst, ◌≢◌, ◌≡◌, ℕ,
}
use mathlib.Core.List.Permᴰ
use mathlib.Core.List.{Permᴰ}
use asyn_log_system.Server.DataManager.{iterated}
use asyn_log_system.Server.DataManager.Order.{values-Permᴰ, assign-Permᴰ, IsKeyed-Permᴰ}
use asyn_log_system.Server.Service.{Session}
use asyn_log_system.Server.DataManager.Items.{IsKeyed, IsPlain, assign-IsKeyed, All}
use asyn_log_system.Server.Store.{
  key, stored_bytes, stored_url, stored_path, dir_of, put, IsStorable, IsUsable, Kind,
}
use asyn_log_system.Server.Config.{Config}
use asyn_log_system.Prelude.Text.{text_eq_iff, text_eq→eq, text_eq, text_eq-false, Text}
use asyn_log_system.Server.DataManager.Entry.{StorageInfo}
use asyn_log_system.Json.{JsonLaws, Json}
use asyn_log_system.Prelude.Table.{find, Table, assign, values}
use asyn_log_system.Server.Disk.{create_directory, set_content, Host, Bundle, Disk}

-- A property of all entries stays one when an entry is added that has it.
values-assign :
    (P : StorageInfo → Type 0) (k : Text) (v : StorageInfo) (t : Table StorageInfo)
    → P v
    → All P (values t)
    → All P (values (assign k v t))
unfolding values assign
values-assign P k v [] good all = (good, tt)
values-assign P k v ((i, w) ∷ t) good (first, rest) = elim (Bool-cases (text_eq i k)) [
  | inl same ↦ rw same (good, rest)
  | inr other ↦ rw other (first, values-assign P k v t good rest)
]

module _ (j : Json) (laws : JsonLaws j) (b : Bundle) (h : Host) (c : Config) (k : Kind)
    (name content : Text) (s s' : Session) (t : Table Text) (now : ℕ) (e : Table StorageInfo)
    (up : IsPut j b h c k name content s s') (u : IsUsable c) (can : IsKeepable h c)
    (storable : IsStorable b h c k name content) (co : Coheres b h c s.world t)
    (kept : IsKept j c s.world now e)
    (record_it : CanRecord j b h c (put k name content) now e) where
  abbrev dir_made : Disk
  dir_made = create_directory (dir_of c k) s.world.disk

  abbrev file_made : Disk
  file_made = (set_content h (stored_path c k name) (stored_bytes b c k content) dir_made).1

  room : Writable h (stored_path c k name) (length (stored_bytes b c k content)) dir_made
  room = record {
    opens = storable.opens;
    free =
        create_directory-IsNoDirectory (dir_of c k) s.world.disk (stored_path c k name)
          (stored_path-dir c u k k name storable.named) (co.files k name storable.named);
    fits = storable.fits;
  }

  not_dir : (l : Kind) → c.storage_info ≢ dir_of c l
  not_dir l same = can.no_stored l [] (same ∙ sym (append-nil (dir_of c l)))

  age_before :
      file_age (dir_made.nodes (stored_path c k name)) ≡ entry_age (find (stored_url c k name) e)
  age_before =
      ap file_age (
        create_directory-SameBut (dir_of c k) s.world.disk (stored_path c k name)
          (stored_path-dir c u k k name storable.named))
      ∙ kept.aged k name storable.named

  time : dir_made.now ≡ now
  time = create_directory-now (dir_of c k) s.world.disk ∙ kept.clock_at

  entry_made : up.entry ≡ new_entry b c k name content now (find (stored_url c k name) e)
  entry_made =
      up.of_file
      ∙ entry_of-set_content c h (stored_path c k name) (stored_bytes b c k content) dir_made room
      ∙ λ i. record {
        mtime = time i;
        atime = from_age (age_before i) (time i);
        fsize = length (stored_bytes b c k content);
        storage_path = stored_path c k name;
        url = stored_url c k name;
      }

  table_made : Permᴰ s'.world.manager.table (recorded b c (put k name content) now e)
  unfolding recorded
  table_made =
      subst (λ t. Permᴰ t (recorded b c (put k name content) now e))
        (sym
          (up.tables ∙ ap (λ i. assign (stored_url c k name) i s.world.manager.table) entry_made))
        (assign-Permᴰ (stored_url c k name)
          (new_entry b c k name content now (find (stored_url c k name) e)) s.world.manager.table e
          kept.table (IsKeyed-Permᴰ e s.world.manager.table (Permᴰ.symm kept.table) kept.keyed).0)

  IsKeyed-recorded : IsKeyed (recorded b c (put k name content) now e)
  unfolding recorded
  IsKeyed-recorded =
      assign-IsKeyed (new_entry b c k name content now (find (stored_url c k name) e)) e kept.keyed

  -- What is found in the manager's table is what the entries have.
  finds_before : (url : Text) → find url e ≡ find url s.world.manager.table
  finds_before = (IsKeyed-Permᴰ e s.world.manager.table (Permᴰ.symm kept.table) kept.keyed).1

  finds_after :
      (url : Text)
      → find url (recorded b c (put k name content) now e) ≡ find url s'.world.manager.table
  finds_after =
      (IsKeyed-Permᴰ (recorded b c (put k name content) now e) s'.world.manager.table
        (Permᴰ.symm table_made) IsKeyed-recorded).1

  -- The entries, in the order in which they are written.
  written_order : Permᴰ (h.order s'.world.manager.table) (recorded b c (put k name content) now e)
  written_order = Permᴰ.trans (h.order-Permᴰ s'.world.manager.table) table_made

  file_at : s'.world.manager.storage_file ≡ c.storage_info
  file_at = up.same_file ∙ co.file_at

  -- Writing the table changes the storage file only.
  saved-nodes : (q : Text) → q ≢ c.storage_info → s'.world.disk.nodes q ≡ file_made.nodes q
  saved-nodes q ne =
      ap (λ d. d.nodes q) up.written
      ∙ saved-SameBut j h s'.world.manager file_made q (λ same. ne (same ∙ file_at))

  disk-now : s'.world.disk.now ≡ now
  disk-now =
      ap (λ d. d.now) up.written
      ∙ set_content-now h s'.world.manager.storage_file _ file_made
      ∙ set_content-now h (stored_path c k name) (stored_bytes b c k content) dir_made
      ∙ time

  storage_free : IsNoDirectory file_made c.storage_info
  storage_free =
      set_content-IsNoDirectory h (stored_path c k name) (stored_bytes b c k content) dir_made
        c.storage_info
        (create_directory-IsNoDirectory (dir_of c k) s.world.disk c.storage_info (not_dir k)
          (IsNoDirectory-kept j c s.world now e kept))

  Stored-recorded : Stored j s'.world.disk c.storage_info (iterated h s'.world.manager.table)
  unfolding CanRecord
  Stored-recorded =
      let r = record_it.1 (iterated h s'.world.manager.table) (
        values-Permᴰ (h.order s'.world.manager.table) (recorded b c (put k name content) now e)
          written_order) in
      subst (λ p. Stored j s'.world.disk p (iterated h s'.world.manager.table)) file_at
        (subst (λ d. Stored j d s'.world.manager.storage_file (iterated h s'.world.manager.table))
          (sym up.written)
          (saved-Stored j laws h s'.world.manager file_made r.body r.written r.short (
            subst (λ p. Writable h p (length r.body) file_made) (sym file_at)
              (record { opens = can.opens; free = storage_free; fits = r.fits }))))

  age_now : file_age (s'.world.disk.nodes (stored_path c k name)) ≡ some (up.entry.atime)
  age_now =
      ap file_age (saved-nodes (stored_path c k name) (λ x. can.no_stored k name (sym x)))
      ∙ file_age-set_content h (stored_path c k name) (stored_bytes b c k content) dir_made room
      ∙ ap (λ i. some i.atime)
          (sym (
            up.of_file
            ∙ entry_of-set_content c h (stored_path c k name) (stored_bytes b c k content) dir_made
                room))

  aged-same :
      file_age (s'.world.disk.nodes (stored_path c k name))
      ≡ entry_age (find (stored_url c k name) (recorded b c (put k name content) now e))
  unfolding entry_age
  aged-same = age_now ∙ ap entry_age (sym up.found ∙ sym (finds_after (stored_url c k name)))

  aged-other :
      (l : Kind) (other : Text)
      → other ≢ []
      → key k name ≢ key l other
      → file_age (s'.world.disk.nodes (stored_path c l other))
        ≡ entry_age (find (stored_url c l other) (recorded b c (put k name content) now e))
  aged-other l other ne differ =
      let others : find (stored_url c l other) s'.world.manager.table
          ≡ find (stored_url c l other) s.world.manager.table =
        up.others (stored_url c l other)
        ∙ rw (
            text_eq-false (stored_url c k name) (stored_url c l other)
              (urls_differ c u k l name other differ)) in
      ap file_age (
        saved-nodes (stored_path c l other) (λ x. can.no_stored l other (sym x))
        ∙ set_content-SameBut h (stored_path c k name) (stored_bytes b c k content) dir_made
            (stored_path c l other) (paths_differ c u k l name other differ)
        ∙ create_directory-SameBut (dir_of c k) s.world.disk (stored_path c l other)
            (stored_path-dir c u l k other ne))
      ∙ kept.aged l other ne
      ∙ ap entry_age (
          finds_before (stored_url c l other)
          ∙ sym others
          ∙ sym (finds_after (stored_url c l other)))

  pub IsKept-IsPut : IsKept j c s'.world now (recorded b c (put k name content) now e)
  unfolding CanRecord recorded
  IsKept-IsPut = record {
    clock_at = disk-now;
    table = table_made;
    keyed = IsKeyed-recorded;
    plain =
        values-assign IsPlain (stored_url c k name)
          (new_entry b c k name content now (find (stored_url c k name) e)) e record_it.0
          kept.plain;
    kept = inl (h.order s'.world.manager.table, written_order, Stored-recorded);
    aged = λ l other ne. elim (Bool-cases (text_eq (key k name) (key l other))) [
      | inl same ↦
          let (kinds, names) =
            same_key k l name other (text_eq→eq (key k name) (key l other) same) in
          subst
            (λ n.
              file_age (s'.world.disk.nodes (stored_path c l n))
              ≡ entry_age (find (stored_url c l n) (recorded b c (put k name content) now e)))
            names
            (subst
              (λ x.
                file_age (s'.world.disk.nodes (stored_path c x name))
                ≡ entry_age (find (stored_url c x name) (recorded b c (put k name content) now e)))
              kinds aged-same)
      | inr differ ↦
          aged-other l other ne (λ x. cc (differ, (text_eq_iff (key k name) (key l other)).1 x))
    ];
  }
