-- ===== src/Server/Service/Stores.antt =====
-- src/server/Service.hpp: the steps of `Upload` and `Download` up to the entry of the table.
use asyn_log_system.Prelude.{
  ℕ, ◌≡◌, ◌≢◌, ◌≤◌, refl, ap, ◌∙◌, Bool, true, false, ◌++◌, length, Option, some, ◌==◌, ok, arith,
}
use asyn_log_system.Prelude.Text.{Text, codes, text_eq, contains_of_begins, begins-append}
use asyn_log_system.Prelude.Table.{find}
use asyn_log_system.Server.Config.{Config}
use asyn_log_system.Json.{Json}
use asyn_log_system.Server.Disk.{Disk, Host, Bundle, set_content, create_directory, compress}
use asyn_log_system.Server.Disk.Laws.{set_content-Holds, Writable, Holds}
use asyn_log_system.Server.DataManager.RwLock.{unlocked}
use asyn_log_system.Server.DataManager.Entry.{StorageInfo}
use asyn_log_system.Server.DataManager.Access.{get_one_by_url_found}
use asyn_log_system.Server.Url.{url_decode}
use asyn_log_system.Server.Service.{
  Request, Session, on_disk, store_upload, upload_as, upload_into, upload_input, upload_body,
  upload, download_entry, download,
}
use asyn_log_system.Server.Service.Paths.{storage_dir, is_low_path, is_raw}
use asyn_log_system.Server.Service.Effects.{Uploaded, finish_upload-Uploaded}

-- A request with all that `Upload` reads, for the file `name` with this storage type and content.
pub record IsUpload (base64_decode : Text → Option Text) (req : Request)
    (name storage_type content : Text) : Type 0 where
  pub sent : req.body ≡ some content
  pub some_bytes : length content ≢ 0
  pub copied : req.copies ≡ true
  pub header : Text
  pub named : req.file_name ≡ some header
  pub decoded : base64_decode header ≡ some name
  pub typed : req.storage_type ≡ some storage_type

module _ (j : Json) (b : Bundle) (base64_decode : Text → Option Text) (h : Host) (c : Config)
    (strerror : Text) (junk : ℕ) where
  upload_body-upload_as :
      (req : Request) (name storage_type content : Text) (s : Session)
      → IsUpload base64_decode req name storage_type content
      → upload_body j b base64_decode h c strerror junk req content s
        ≡ upload_as j b base64_decode h c strerror junk name storage_type content s
  unfolding upload_body
  upload_body-upload_as req name storage_type content s u = ground arith

  pub upload-upload_as :
      (req : Request) (name storage_type content : Text) (s : Session)
      → IsUpload base64_decode req name storage_type content
      → upload j b base64_decode h c strerror junk req s
        ≡ upload_as j b base64_decode h c strerror junk name storage_type content s
  unfolding upload upload_input
  upload-upload_as req name storage_type content s u =
      let some_bytes : (length content == 0) ≡ false = ground arith in
      ap (λ o. upload_input j b base64_decode h c strerror junk o req s) u.sent
      ∙ rw some_bytes (upload_body-upload_as req name storage_type content s u)

  -- What is left to do once the file is on disk.
  pub upload_as-Uploaded :
      (name storage_type dir content stored : Text) (s : Session) (d : Disk)
      → storage_dir c storage_type ≡ some dir
      → store_upload j b base64_decode h c strerror junk
          (dir ++ name)
          content
          (create_directory dir s.world.disk)
        ≡ (true, d)
      → Holds d (dir ++ name) stored
      → s.world.manager.lock ≡ unlocked
      → 2 ≤ length (dir ++ name)
      → dir ++ name ≢ s.world.manager.storage_file
      → (s' : Session) × (upload_as j b base64_decode h c strerror junk name storage_type content s
          ≡ ok s')
        × Uploaded j h c (dir ++ name) stored d s s'
  unfolding upload_as upload_into
  upload_as-Uploaded name storage_type dir content stored s d to done held free long apart =
      let (s', e, u) =
        finish_upload-Uploaded j b base64_decode h c strerror junk (dir ++ name) stored
          (on_disk d s) free held long apart in
      (
        s',
        ap (λ o. upload_into j b base64_decode h c strerror junk o name content s) to ∙ rw done e,
        record {
          free = u.free;
          held = u.held;
          replied = u.replied;
          files = u.files;
          entry = u.entry;
          found = u.found;
          own_path = u.own_path;
          kept = u.kept;
          others = u.others;
          same_file = u.same_file;
          of_file = u.of_file;
          tables = u.tables;
          written = u.written;
        },
      )

  -- A request for the entry's URL reaches the entry.
  pub download-download_entry :
      (req : Request) (url : Text) (info : StorageInfo) (s : Session)
      → url_decode req.path ≡ ok url
      → find url s.world.manager.table ≡ some info
      → s.world.manager.lock ≡ unlocked
      → download j b base64_decode h c strerror junk req s
        ≡ ok (download_entry j b base64_decode h c strerror junk info s)
  unfolding download
  download-download_entry req url info s decoded found free =
      rw (decoded, get_one_by_url_found url info s.world.manager found free)

pub storage_dir-low : (c : Config) → storage_dir c (codes "low") ≡ some c.low_storage_dir
unfolding storage_dir text_eq
storage_dir-low c = refl

pub storage_dir-deep : (c : Config) → storage_dir c (codes "deep") ≡ some c.deep_storage_dir
unfolding storage_dir text_eq
storage_dir-deep c = refl

-- A path in the low directory is served as it is.
pub is_raw-low : (c : Config) (name : Text) → is_raw c (c.low_storage_dir ++ name) ≡ true
unfolding is_raw
is_raw-low c name = contains_of_begins c.low_storage_dir _ (begins-append c.low_storage_dir name)

-- The first part of a pair, exchanged.
with_true : (x : Bool × Disk) → x.0 ≡ true → x ≡ (true, x.1)
with_true x e = λ i. (e i, x.1)

module _ (j : Json) (b : Bundle) (base64_decode : Text → Option Text) (h : Host) (c : Config)
    (strerror : Text) (junk : ℕ) where
  pub store_upload-low :
      (path content : Text) (d : Disk)
      → is_low_path path ≡ true
      → (set_content h path content d).0 ≡ true
      → store_upload j b base64_decode h c strerror junk path content d
        ≡ (true, (set_content h path content d).1)
  unfolding store_upload
  store_upload-low path content d low done = rw low (with_true (set_content h path content d) done)

  pub store_upload-packed :
      (path content : Text) (d : Disk)
      → let packed = b.pack c.bundle_format content in
        is_low_path path ≡ false
        → length packed ≢ 0
        → (set_content h path packed d).0 ≡ true
        → store_upload j b base64_decode h c strerror junk path content d
          ≡ (true, (set_content h path packed d).1)
  unfolding store_upload compress
  store_upload-packed path content d low nonempty done =
      let packed : Text = b.pack c.bundle_format content in
      let some_bytes : (length packed == 0) ≡ false = ground arith in
      rw (low, some_bytes) (with_true (set_content h path packed d) done)

  -- What an upload of type low does.
  pub upload-low :
      (put : Request) (name content : Text) (s : Session)
      → let path = c.low_storage_dir ++ name in
        let d = create_directory c.low_storage_dir s.world.disk in
        IsUpload base64_decode put name (codes "low") content
        → s.world.manager.lock ≡ unlocked
        → is_low_path path ≡ true
        → path ≢ s.world.manager.storage_file
        → 2 ≤ length path
        → Writable h path (length content) d
        → (s' : Session) × (upload j b base64_decode h c strerror junk put s ≡ ok s')
          × Uploaded j h c path content (set_content h path content d).1 s s'
  upload-low put name content s u free low apart long room =
      let path : Text = c.low_storage_dir ++ name in
      let d : Disk = create_directory c.low_storage_dir s.world.disk in
      let (done, held, others, now) = set_content-Holds h path content d room in
      let (s', uploaded, up) =
        upload_as-Uploaded j b base64_decode h c strerror junk name (codes "low") c.low_storage_dir
          content content s (set_content h path content d).1 (storage_dir-low c)
          (store_upload-low path content d low done) held free long apart in
      (
        s',
        upload-upload_as j b base64_decode h c strerror junk put name (codes "low") content s u
            ∙ uploaded,
        up,
      )

  -- What an upload of type deep does whose path does not say that it is low.
  pub upload-deep :
      (put : Request) (name content : Text) (s : Session)
      → let path = c.deep_storage_dir ++ name in
        let packed = b.pack c.bundle_format content in
        let d = create_directory c.deep_storage_dir s.world.disk in
        IsUpload base64_decode put name (codes "deep") content
        → s.world.manager.lock ≡ unlocked
        → is_low_path path ≡ false
        → length packed ≢ 0
        → path ≢ s.world.manager.storage_file
        → 2 ≤ length path
        → Writable h path (length packed) d
        → (s' : Session) × (upload j b base64_decode h c strerror junk put s ≡ ok s')
          × Uploaded j h c path packed (set_content h path packed d).1 s s'
  upload-deep put name content s u free low nonempty apart long room =
      let path : Text = c.deep_storage_dir ++ name in
      let packed : Text = b.pack c.bundle_format content in
      let d : Disk = create_directory c.deep_storage_dir s.world.disk in
      let (done, held, others, now) = set_content-Holds h path packed d room in
      let (s', uploaded, up) =
        upload_as-Uploaded j b base64_decode h c strerror junk name (codes "deep")
          c.deep_storage_dir content packed s (set_content h path packed d).1 (storage_dir-deep c)
          (store_upload-packed path content d low nonempty done) held free long apart in
      (
        s',
        upload-upload_as j b base64_decode h c strerror junk put name (codes "deep") content s u
            ∙ uploaded,
        up,
      )
