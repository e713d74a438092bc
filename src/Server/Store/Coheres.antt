-- ===== src/Server/Store/Coheres.antt =====
-- src/server/Service.hpp: when the service's data stand for a map from names to contents, and that
-- an upload keeps it so.
use asyn_log_system.Json.{Json}
use asyn_log_system.Server.DataManager.RwLock.{unlocked}
use asyn_log_system.Server.DataManager.Entry.{StorageInfo}
use asyn_log_system.Prelude.Table.{find-assign, find, assign, Table}
use asyn_log_system.Server.Disk.Laws.{Holds}
use asyn_log_system.Server.Service.{Session}
use asyn_log_system.Server.DataManager.{World}
use asyn_log_system.Prelude.{
  ℕ, inr, some_injective, inl, Bool-cases, some, drop-append_of_le, append-nil, refl, sym, subst,
  ◌∙◌, [], ◌∷◌, drop, ap, ◌≡◌, ◌≢◌, ◌++◌,
}
use asyn_log_system.Server.Disk.{create_directory}
use asyn_log_system.Server.Config.{Config}
use asyn_log_system.Prelude.Text.{text_eq_iff, text_eq→eq, text_eq, text_eq-false, Text}
use asyn_log_system.Server.Disk.{Disk, set_content, Host, Bundle}
use asyn_log_system.Server.Store.{
  Kind, low, deep, key, dir_of, stored_path, stored_url, stored_bytes, IsUsable, IsStorable,
}
use asyn_log_system.Server.Service.Effects.{
  Uploaded, IsNoDirectory, set_content-IsNoDirectory, create_directory-IsNoDirectory, Holds-SameBut,
  set_content-SameBut, create_directory-Holds,
}

-- The entry and the file of a name.
pub record IsStored (b : Bundle) (h : Host) (c : Config) (w : World) (k : Kind)
    (name content : Text) : Type 0 where
  pub can : IsStorable b h c k name content
  pub entry : StorageInfo
  pub found : find (stored_url c k name) w.manager.table ≡ some entry
  pub own_path : entry.storage_path ≡ stored_path c k name
  pub held : Holds w.disk (stored_path c k name) (stored_bytes b c k content)

pub record Coheres (b : Bundle) (h : Host) (c : Config) (w : World) (t : Table Text) : Type 0 where
  pub free : w.manager.lock ≡ unlocked
  pub file_at : w.manager.storage_file ≡ c.storage_info
  pub files : (k : Kind) (name : Text) → name ≢ [] → IsNoDirectory w.disk (stored_path c k name)
  pub unpacked : (m : Text) → m ≢ [] → IsNoDirectory w.disk (c.uncompress_dir ++ m)
  pub stored :
      (k : Kind) (name content : Text)
      → find (key k name) t ≡ some content
      → IsStored b h c w k name content

pub append-ne : (p name : Text) → name ≢ [] → p ++ name ≢ p
append-ne [] name ne e = ne e
append-ne (x ∷ p) name ne e = append-ne p name ne (ap (drop 1) e)

append_cancel : (p s t : Text) → p ++ s ≡ p ++ t → s ≡ t
append_cancel [] s t e = e
append_cancel (x ∷ p) s t e = append_cancel p s t (ap (drop 1) e)

pub same_key : (k l : Kind) (n m : Text) → key k n ≡ key l m → (k ≡ l) × (n ≡ m)
unfolding key
same_key low low n m e = (refl, ap (drop 1) e)
same_key low deep n m e = cc e
same_key deep low n m e = cc e
same_key deep deep n m e = (refl, ap (drop 1) e)

module _ (c : Config) (u : IsUsable c) where
  -- A file stands in no directory of the service's own name.
  pub stored_path-dir : (k l : Kind) (n : Text) → n ≢ [] → stored_path c k n ≢ dir_of c l
  unfolding dir_of
  stored_path-dir low low n ne e = append-ne c.low_storage_dir n ne e
  stored_path-dir low deep n ne e = u.paths_apart n [] (e ∙ sym (append-nil c.deep_storage_dir))
  stored_path-dir deep low n ne e = u.paths_apart [] n (append-nil c.low_storage_dir ∙ sym e)
  stored_path-dir deep deep n ne e = append-ne c.deep_storage_dir n ne e

  pub unpacked-dir : (m : Text) (l : Kind) → c.uncompress_dir ++ m ≢ dir_of c l
  unpacked-dir m l e = u.unpacked_apart l [] m (append-nil (dir_of c l) ∙ sym e)

  pub paths_differ :
      (k l : Kind) (n m : Text) → key k n ≢ key l m → stored_path c l m ≢ stored_path c k n
  unfolding key dir_of
  paths_differ low low n m ne e = ne (ap (◌∷◌ 0) (append_cancel c.low_storage_dir n m (sym e)))
  paths_differ low deep n m ne e = u.paths_apart n m (sym e)
  paths_differ deep low n m ne e = u.paths_apart m n e
  paths_differ deep deep n m ne e = ne (ap (◌∷◌ 1) (append_cancel c.deep_storage_dir n m (sym e)))

  same_dir_url : (k : Kind) (n m : Text) → stored_url c k n ≡ stored_url c k m → n ≡ m
  same_dir_url k n m e = append_cancel (drop 2 (dir_of c k)) n m (
      sym (drop-append_of_le 2 (dir_of c k) n (u.long k))
      ∙ append_cancel c.download_prefix (drop 2 (stored_path c k n)) (drop 2 (stored_path c k m)) e
      ∙ drop-append_of_le 2 (dir_of c k) m (u.long k))

  pub urls_differ :
      (k l : Kind) (n m : Text) → key k n ≢ key l m → stored_url c k n ≢ stored_url c l m
  unfolding key
  urls_differ low low n m ne e = ne (ap (◌∷◌ 0) (same_dir_url low n m e))
  urls_differ low deep n m ne e = u.urls_apart n m e
  urls_differ deep low n m ne e = u.urls_apart m n (sym e)
  urls_differ deep deep n m ne e = ne (ap (◌∷◌ 1) (same_dir_url deep n m e))

module _ (j : Json) (b : Bundle) (h : Host) (c : Config) (k : Kind) (name content : Text)
    (s s' : Session) where
  -- The service behind an upload of this type.
  abbrev pub IsPut : Type 0
  IsPut =
      Uploaded j h c (stored_path c k name) (stored_bytes b c k content)
        (set_content h (stored_path c k name) (stored_bytes b c k content)
          (create_directory (dir_of c k) s.world.disk)).1
        s s'

  files_kept :
      IsPut
      → (q : Text) → q ≢ dir_of c k
      → IsNoDirectory s.world.disk q
      → IsNoDirectory s'.world.disk q
  files_kept up q ne free = up.files q (
      set_content-IsNoDirectory h (stored_path c k name) (stored_bytes b c k content)
        (create_directory (dir_of c k) s.world.disk) q
        (create_directory-IsNoDirectory (dir_of c k) s.world.disk q ne free))

  holds_kept :
      IsPut
      → (q t : Text) → q ≢ stored_path c k name
      → q ≢ s.world.manager.storage_file
      → Holds s.world.disk q t
      → Holds s'.world.disk q t
  holds_kept up q t ne apart held =
      let d : Disk = create_directory (dir_of c k) s.world.disk in
      let path : Text = stored_path c k name in
      let bytes : Text = stored_bytes b c k content in
      up.kept q t apart (
        Holds-SameBut d (set_content h path bytes d).1 path q t (set_content-SameBut h path bytes d)
          ne (create_directory-Holds s.world.disk (dir_of c k) q t held))

  -- The name that was uploaded is stored with its content, and all others stay.
  IsStored-new :
      (l : Kind) (other t : Text)
      → IsPut
      → IsStorable b h c k name content
      → key k name ≡ key l other
      → content ≡ t
      → IsStored b h c s'.world l other t
  IsStored-new l other t up can same same_content =
      let (kinds, names) = same_key k l name other same in
      subst (IsStored b h c s'.world l other) same_content (
        subst (λ n. IsStored b h c s'.world l n content) names
          (subst (λ n. IsStored b h c s'.world n name content) kinds
            (record {
              can = can;
              entry = up.entry;
              found = up.found;
              own_path = up.own_path;
              held = up.held;
            })))

  IsStored-other :
      (l : Kind) (other t : Text)
      → IsPut
      → IsUsable c
      → s.world.manager.storage_file ≡ c.storage_info
      → key k name ≢ key l other
      → IsStored b h c s.world l other t
      → IsStored b h c s'.world l other t
  IsStored-other l other t up u file ne st = record {
    can = st.can;
    entry = st.entry;
    found =
        up.others (stored_url c l other)
        ∙ rw
            (text_eq-false (stored_url c k name) (stored_url c l other)
              (urls_differ c u k l name other ne))
            st.found;
    own_path = st.own_path;
    held =
        holds_kept up (stored_path c l other) (stored_bytes b c l t)
          (paths_differ c u k l name other ne) (λ e. st.can.apart (e ∙ file)) st.held;
  }

  pub Coheres-put :
      (t : Table Text)
      → IsPut
      → IsUsable c
      → IsStorable b h c k name content
      → Coheres b h c s.world t
      → Coheres b h c s'.world (assign (key k name) content t)
  Coheres-put t up u can co = record {
    free = up.free;
    file_at = up.same_file ∙ co.file_at;
    files = λ l q ne.
        files_kept up (stored_path c l q) (stored_path-dir c u l k q ne) (co.files l q ne);
    unpacked =
        λ m ne. files_kept up (c.uncompress_dir ++ m) (unpacked-dir c u m k) (co.unpacked m ne);
    stored = λ l other body e.
        let found = sym (find-assign (key k name) (key l other) content t) ∙ e in
        elim (Bool-cases (text_eq (key k name) (key l other))) [
          | inl same ↦
              IsStored-new l other body up can (text_eq→eq (key k name) (key l other) same)
                (some_injective (rw same at found))
          | inr ne ↦
              IsStored-other l other body up u co.file_at
                (λ e'. cc (ne, (text_eq_iff (key k name) (key l other)).1 e'))
                (co.stored l other body (rw ne at found))
        ];
  }

-- The time does not matter.
pub Coheres-clock :
    (b : Bundle) (h : Host) (c : Config) (w : World) (t : Table Text) (later : ℕ)
    → Coheres b h c w t
    → Coheres b h c (record w { disk = record w.disk { now = later } }) t
Coheres-clock b h c w t later co = record {
  free = co.free;
  file_at = co.file_at;
  files = co.files;
  unpacked = co.unpacked;
  stored = λ k name content e.
      let st = co.stored k name content e in
      record {
        can = st.can;
        entry = st.entry;
        found = st.found;
        own_path = st.own_path;
        held = st.held;
      };
}
