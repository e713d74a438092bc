-- ===== src/Server/Service/RoundTrip.antt =====
-- src/server/Service.hpp: a file that was uploaded is what a later download sends.
use asyn_log_system.Prelude.{
  ℕ, ◌≡◌, ◌≢◌, ◌≤◌, ◌<◌, sym, ◌∙◌, true, false, [], ◌++◌, drop, length, Option, Result, ok,
  size_mod, subst,
}
use asyn_log_system.Prelude.Text.{Text, codes}
use asyn_log_system.Server.Config.{Config}
use asyn_log_system.Json.{Json}
use asyn_log_system.Server.Disk.{Disk, Host, Bundle, set_content, create_directory}
use asyn_log_system.Server.Disk.Laws.{Writable, Holds, set_content-Holds}
use asyn_log_system.Server.DataManager.RwLock.{Fault, unlocked}
use asyn_log_system.Server.DataManager.Entry.{StorageInfo}
use asyn_log_system.Server.Url.{url_decode}
use asyn_log_system.Server.Service.{
  Request, Session, store_upload, upload, download_entry, download,
}
use asyn_log_system.Server.Service.Paths.{is_low_path, is_raw, unpacked_path}
use asyn_log_system.Server.Service.Effects.{
  set_content-IsNoDirectory, create_directory-IsNoDirectory, IsNoDirectory, Replied,
}
use asyn_log_system.Server.Service.Downloads.{download_entry-raw, download_entry-packed}
use asyn_log_system.Server.Service.Stores.{
  upload-low, IsUpload, upload-upload_as, upload_as-Uploaded, download-download_entry,
  storage_dir-deep, is_raw-low, store_upload-packed,
}

-- What lets `Download` unpack and send what is stored under `path`, with `result` coming out.
pub record IsServable (b : Bundle) (h : Host) (c : Config) (path stored result : Text)
    : Type 0 where
  pub not_raw : is_raw c path ≡ false
  pub short : length stored < size_mod
  pub readable : h.can_read path ≡ true
  pub unpacks : b.unpack stored ≡ result
  pub target_opens : h.can_write (unpacked_path c path) ≡ true
  pub target_fits : length result ≤ h.room (unpacked_path c path)
  pub target_readable : h.can_read (unpacked_path c path) ≡ true
  pub target_ne : unpacked_path c path ≢ c.uncompress_dir

-- What a theorem below says of an upload followed by a download of the entry's URL: one reply with
-- status 200 to each, the second with the given body.
abbrev pub Transfers :
    (Request → Session → Result Fault Session)
    → (Request → Session → Result Fault Session)
    → Request
    → Request
    → Session
    → Text
    → Type 0
Transfers up down put get s body =
    (s' s'' : Session) × (up put s ≡ ok s')
    × Replied 200 [] s s'
    × (down get s' ≡ ok s'')
    × Replied 200 body s' s''

module _ (j : Json) (b : Bundle) (base64_decode : Text → Option Text) (h : Host) (c : Config)
    (strerror : Text) (junk : ℕ) where
  -- An upload of type low that has a body and all headers, and a later download of the URL made
  -- for it, are answered with one reply of status 200 each, the second with the bytes uploaded, if
  -- the lock is free, the path has at least two bytes, holds low_storage and is not the storage
  -- file, and the file can be written in full and read.
  pub upload-download_low :
      (put get : Request) (name content : Text) (s : Session)
      → let path = c.low_storage_dir ++ name in
        IsUpload base64_decode put name (codes "low") content
        → url_decode get.path ≡ ok (c.download_prefix ++ drop 2 path)
        → s.world.manager.lock ≡ unlocked
        → is_low_path path ≡ true
        → path ≢ s.world.manager.storage_file
        → 2 ≤ length path
        → Writable h path (length content) (create_directory c.low_storage_dir s.world.disk)
        → h.can_read path ≡ true
        → Transfers
            (upload j b base64_decode h c strerror junk)
            (download j b base64_decode h c strerror junk)
            put
            get
            s
            content
  upload-download_low put get name content s u decoded free low apart long room readable =
      let (s', uploaded, up) =
        upload-low j b base64_decode h c strerror junk put name content s u free low apart long
          room in
      let sent =
        download_entry-raw j b base64_decode h c strerror junk up.entry content s'
          (subst (λ p. Holds s'.world.disk p content) (sym up.own_path) up.held)
          (subst (λ p. is_raw c p ≡ true) (sym up.own_path) (is_raw-low c name))
          (subst (λ p. h.can_read p ≡ true) (sym up.own_path) readable) in
      (
        s',
        _,
        uploaded,
        up.replied,
        download-download_entry j b base64_decode h c strerror junk get _ up.entry s' decoded
            up.found up.free,
        sent,
      )

  -- The download of an entry whose file is packed under a known path.
  pub download_packed :
      (info : StorageInfo) (path packed content : Text) (s : Session)
      → info.storage_path ≡ path
      → Holds s.world.disk path packed
      → is_raw c path ≡ false
      → length packed < size_mod
      → h.can_read path ≡ true
      → b.unpack packed ≡ content
      → Writable h
          (unpacked_path c path)
          (length content)
          (create_directory c.uncompress_dir s.world.disk)
      → h.can_read (unpacked_path c path) ≡ true
      → Replied 200 content s (download_entry j b base64_decode h c strerror junk info s)
  download_packed info path packed content s own held raw short readable inverse room
        target_readable =
      subst (λ t. Replied 200 t s (download_entry j b base64_decode h c strerror junk info s))
        inverse
        (download_entry-packed j b base64_decode h c strerror junk info packed s
          (subst (λ p. Holds s.world.disk p packed) (sym own) held)
          (subst (λ p. is_raw c p ≡ false) (sym own) raw) short
          (subst (λ p. h.can_read p ≡ true) (sym own) readable)
          (subst
            (λ p.
              Writable h (unpacked_path c p) (length (b.unpack packed))
                (create_directory c.uncompress_dir s.world.disk))
            (sym own)
            (subst
              (λ t.
                Writable h (unpacked_path c path) (length t)
                  (create_directory c.uncompress_dir s.world.disk))
              (sym inverse) room))
          (subst (λ p. h.can_read (unpacked_path c p) ≡ true) (sym own) target_readable))

  -- An upload to the deep directory that leaves `stored` on disk, and the download that unpacks it.
  transfer_deep :
      (put get : Request) (name content stored result : Text) (s : Session) (d : Disk)
      → let path = c.deep_storage_dir ++ name in
        let target = unpacked_path c path in
        IsUpload base64_decode put name (codes "deep") content
        → url_decode get.path ≡ ok (c.download_prefix ++ drop 2 path)
        → s.world.manager.lock ≡ unlocked
        → store_upload j b base64_decode h c strerror junk path content
            (create_directory c.deep_storage_dir s.world.disk)
          ≡ (true, d)
        → Holds d path stored
        → IsNoDirectory d target
        → IsServable b h c path stored result
        → path ≢ s.world.manager.storage_file
        → 2 ≤ length path
        → Transfers
            (upload j b base64_decode h c strerror junk)
            (download j b base64_decode h c strerror junk)
            put
            get
            s
            result
  transfer_deep put get name content stored result s d u decoded free done held no_dir v apart
        long =
      let path : Text = c.deep_storage_dir ++ name in
      let (s', uploaded, up) =
        upload_as-Uploaded j b base64_decode h c strerror junk name (codes "deep")
          c.deep_storage_dir content stored s d (storage_dir-deep c) done held free long apart in
      let target_free : IsNoDirectory (create_directory c.uncompress_dir s'.world.disk)
          (unpacked_path c path) =
        create_directory-IsNoDirectory c.uncompress_dir s'.world.disk _ v.target_ne
          (up.files _ no_dir) in
      let sent =
        download_packed up.entry path stored result s' up.own_path up.held v.not_raw v.short
          v.readable v.unpacks
          (record { opens = v.target_opens; free = target_free; fits = v.target_fits })
          v.target_readable in
      (
        s',
        _,
        upload-upload_as j b base64_decode h c strerror junk put name (codes "deep") content s u
            ∙ uploaded,
        up.replied,
        download-download_entry j b base64_decode h c strerror junk get _ up.entry s' decoded
            up.found up.free,
        sent,
      )

  -- An upload of type deep that has a body and all headers, and a later download of the URL made
  -- for it, are answered with one reply of status 200 each, the second with the bytes uploaded, if
  -- the lock is free, the compression library gives some bytes and unpacks what it packed, the
  -- path has at least two bytes, does not hold low_storage or the low directory and is not the
  -- storage file, and the packed and the unpacked file can be written in full and read.
  pub upload-download_deep :
      (put get : Request) (name content : Text) (s : Session)
      → let path = c.deep_storage_dir ++ name in
        let packed = b.pack c.bundle_format content in
        IsUpload base64_decode put name (codes "deep") content
        → url_decode get.path ≡ ok (c.download_prefix ++ drop 2 path)
        → s.world.manager.lock ≡ unlocked
        → is_low_path path ≡ false
        → length packed ≢ 0
        → Writable h path (length packed) (create_directory c.deep_storage_dir s.world.disk)
        → IsNoDirectory s.world.disk (unpacked_path c path)
        → unpacked_path c path ≢ c.deep_storage_dir
        → IsServable b h c path packed content
        → path ≢ s.world.manager.storage_file
        → 2 ≤ length path
        → Transfers
            (upload j b base64_decode h c strerror junk)
            (download j b base64_decode h c strerror junk)
            put
            get
            s
            content
  upload-download_deep put get name content s u decoded free low nonempty room no_dir ne v apart
        long =
      let path : Text = c.deep_storage_dir ++ name in
      let packed : Text = b.pack c.bundle_format content in
      let d0 : Disk = create_directory c.deep_storage_dir s.world.disk in
      let (done, held, others, now) = set_content-Holds h path packed d0 room in
      transfer_deep put get name content packed content s (set_content h path packed d0).1 u decoded
        free
        (store_upload-packed j b base64_decode h c strerror junk path content d0 low nonempty done)
        held
        (set_content-IsNoDirectory h path packed d0 _
          (create_directory-IsNoDirectory c.deep_storage_dir s.world.disk _ ne no_dir))
        v apart long
