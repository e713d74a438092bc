-- ===== src/Server/Service/Downloads.antt =====
-- src/server/Service.hpp: the part of `Download` behind the look-up, raw or unpacked.
use asyn_log_system.Prelude.{
  ℕ, ◌≡◌, ◌≢◌, ◌<◌, refl, inl, inr, true, false, length, Option, some, size_mod, arith, Bool-cases,
}
use asyn_log_system.Prelude.Text.{Text, text_eq, text_eq_refl, text_eq-false}
use asyn_log_system.Server.Config.{Config}
use asyn_log_system.Json.{Json}
use asyn_log_system.Server.Disk.{
  remove, Disk, Host, Bundle, exists, set_content, create_directory, uncompress, get_content,
}
use asyn_log_system.Server.Disk.Laws.{Writable, Holds, set_content-Holds, get_content-Holds}
use asyn_log_system.Server.DataManager.Entry.{StorageInfo}
use asyn_log_system.Server.DataManager.Reload.{exists-Holds}
use asyn_log_system.Server.Service.{
  Session, on_disk, unpack_download, serve_file, download_entry, file_bytes,
}
use asyn_log_system.Server.Service.Paths.{is_raw, unpacked_path}
use asyn_log_system.Server.Service.Effects.{Replied, create_directory-Holds}

uncompress-some :
    (h : Host) (b : Bundle) (p target body : Text) (d : Disk)
    → get_content h p d ≡ some body
    → uncompress h b p target d ≡ set_content h target (b.unpack body) d
unfolding uncompress
uncompress-some h b p target body d e = ground arith

file_bytes-Holds : (d : Disk) (p s : Text) → Holds d p s → file_bytes (d.nodes p) ≡ s
unfolding file_bytes
file_bytes-Holds d p s (f, at, e) = ground arith

module _ (j : Json) (b : Bundle) (base64_decode : Text → Option Text) (h : Host) (c : Config)
    (strerror : Text) (junk : ℕ) where
  -- A file that can be opened is sent whole.
  serve_file-Replied :
      (info : StorageInfo) (path content : Text) (s : Session)
      → Holds s.world.disk path content
      → Replied 200 content s (serve_file j b base64_decode h c strerror junk info path s)
  unfolding serve_file
  serve_file-Replied info path content s held = elim (Bool-cases (text_eq path info.storage_path)) [
    | inl same ↦ rw same (_, refl, refl, file_bytes-Holds s.world.disk path content held)
    | inr other ↦ rw other (_, refl, refl, file_bytes-Holds s.world.disk path content held)
  ]

  -- A file under the low directory is sent as it is.
  pub download_entry-raw :
      (info : StorageInfo) (content : Text) (s : Session)
      → Holds s.world.disk info.storage_path content
      → is_raw c info.storage_path ≡ true
      → h.can_read info.storage_path ≡ true
      → Replied 200 content s (download_entry j b base64_decode h c strerror junk info s)
  unfolding download_entry unpack_download
  download_entry-raw info content s held raw readable =
      let there : exists info.storage_path s.world.disk ≡ true =
        exists-Holds s.world.disk info.storage_path content held in
      rw (there, raw, there, readable) (serve_file-Replied info info.storage_path content s held)

  -- The service is as it was before.
  pub download_entry-raw_world :
      (info : StorageInfo) (content : Text) (s : Session)
      → Holds s.world.disk info.storage_path content
      → is_raw c info.storage_path ≡ true
      → h.can_read info.storage_path ≡ true
      → (download_entry j b base64_decode h c strerror junk info s).world ≡ s.world
  unfolding download_entry unpack_download serve_file
  download_entry-raw_world info content s held raw readable =
      let there : exists info.storage_path s.world.disk ≡ true =
        exists-Holds s.world.disk info.storage_path content held in
      rw (there, raw, there, readable, text_eq_refl info.storage_path) refl

  -- Any other file is unpacked, and what comes out is sent.
  pub download_entry-packed :
      (info : StorageInfo) (packed : Text) (s : Session)
      → let target = unpacked_path c info.storage_path in
        Holds s.world.disk info.storage_path packed
        → is_raw c info.storage_path ≡ false
        → length packed < size_mod
        → h.can_read info.storage_path ≡ true
        → Writable h target
            (length (b.unpack packed))
            (create_directory c.uncompress_dir s.world.disk)
        → h.can_read target ≡ true
        → Replied 200
            (b.unpack packed)
            s
            (download_entry j b base64_decode h c strerror junk info s)
  unfolding download_entry unpack_download
  download_entry-packed info packed s held raw short readable room target_readable =
      let d : Disk = create_directory c.uncompress_dir s.world.disk in
      let target : Text = unpacked_path c info.storage_path in
      let there : exists info.storage_path s.world.disk ≡ true =
        exists-Holds s.world.disk info.storage_path packed held in
      let read : get_content h info.storage_path d ≡ some packed =
        get_content-Holds h info.storage_path packed d
          (create_directory-Holds s.world.disk c.uncompress_dir info.storage_path packed held) short
          readable in
      let (done, unpacked, others, now) = set_content-Holds h target (b.unpack packed) d room in
      let there' : exists target (set_content h target (b.unpack packed) d).1 ≡ true =
        exists-Holds _ target (b.unpack packed) unpacked in
      rw
        (
          there,
          raw,
          uncompress-some h b info.storage_path target packed d read,
          there',
          target_readable,
        )
        (serve_file-Replied info target (b.unpack packed)
          (on_disk (set_content h target (b.unpack packed) d).1 s) unpacked)

  -- Unpacking leaves the disk as it is but for the directory, and nothing under the target.
  pub download_entry-packed_world :
      (info : StorageInfo) (path packed : Text) (s : Session)
      → let target = unpacked_path c path in
        let d = create_directory c.uncompress_dir s.world.disk in
        info.storage_path ≡ path
        → Holds s.world.disk path packed
        → is_raw c path ≡ false
        → length packed < size_mod
        → h.can_read path ≡ true
        → Writable h target (length (b.unpack packed)) d
        → h.can_read target ≡ true
        → target ≢ path
        → (download_entry j b base64_decode h c strerror junk info s).world
          ≡ record s.world { disk = remove target (set_content h target (b.unpack packed) d).1 }
  unfolding download_entry unpack_download serve_file
  download_entry-packed_world info path packed s own held raw short readable room target_readable
        ne =
      let d : Disk = create_directory c.uncompress_dir s.world.disk in
      let target : Text = unpacked_path c path in
      let read : get_content h path d ≡ some packed =
        get_content-Holds h path packed d
          (create_directory-Holds s.world.disk c.uncompress_dir path packed held) short readable in
      let (done, unpacked, others, now) = set_content-Holds h target (b.unpack packed) d room in
      let there : exists target (set_content h target (b.unpack packed) d).1 ≡ true =
        exists-Holds _ target (b.unpack packed) unpacked in
      rw
        (
          own,
          exists-Holds s.world.disk path packed held,
          raw,
          uncompress-some h b path target packed d read,
          there,
          target_readable,
          text_eq-false target path ne,
        )
        refl
