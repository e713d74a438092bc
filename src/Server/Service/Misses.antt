-- ===== src/Server/Service/Misses.antt =====
-- src/server/Service.hpp: what one download of an unknown URL does to the service.
use asyn_log_system.Prelude.{
  subst, ℕ, ◌≡◌, ◌≤◌, refl, sym, ap, ◌∙◌, true, false, [], ◌++◌, length, Option, none, some, ok,
  err,
}
use asyn_log_system.Prelude.Text.{Text, codes}
use asyn_log_system.Prelude.Table.{find}
use asyn_log_system.Server.Config.{Config}
use asyn_log_system.Json.{Json}
use asyn_log_system.Server.Disk.{Disk, Host, Bundle, exists, set_content, create_directory}
use asyn_log_system.Server.Disk.Laws.{Writable, Holds, set_content-Holds}
use asyn_log_system.Server.DataManager.RwLock.{deadlock, unlocked}
use asyn_log_system.Server.DataManager.Entry.{blank}
use asyn_log_system.Server.DataManager.Access.{IsHeld, insert-IsHeld, miss-IsHeld}
use asyn_log_system.Server.Url.{url_decode}
use asyn_log_system.Server.Service.{
  Request, Session, send, on_disk, finish_upload, upload_as, upload_into, upload, download_entry,
  download,
}
use asyn_log_system.Server.Service.Paths.{is_low_path}
use asyn_log_system.Server.Service.Effects.{Replied, new_storage_info-Holds}
use asyn_log_system.Server.Service.Stores.{
  IsUpload, upload-upload_as, storage_dir-low, store_upload-low,
}

module _ (j : Json) (b : Bundle) (base64_decode : Text → Option Text) (h : Host) (c : Config)
    (strerror : Text) (junk : ℕ) where
  finish_upload-IsHeld :
      (path content : Text) (s : Session)
      → IsHeld s.world.manager
      → Holds s.world.disk path content
      → 2 ≤ length path
      → finish_upload j b base64_decode h c strerror junk path s ≡ err deadlock
  unfolding finish_upload
  finish_upload-IsHeld path content s held there long = rw (
    new_storage_info-Holds c h path content s.world.disk (blank junk) there long,
    insert-IsHeld j h _ s.world held,
  )

  download_miss :
      (get : Request) (url : Text) (s : Session)
      → url_decode get.path ≡ ok url
      → find url s.world.manager.table ≡ none
      → s.world.manager.lock ≡ unlocked
      → exists [] s.world.disk ≡ false
      → (s' : Session) × (download j b base64_decode h c strerror junk get s ≡ ok s')
        × Replied 404 [] s s'
        × IsHeld s'.world.manager
        × (s'.world.disk ≡ s.world.disk)
  unfolding download download_entry send blank
  download_miss get url s decoded missing free empty =
      let (m, asked, held) = miss-IsHeld url s.world.manager missing free in
      (
        send 404 (some (codes "not exists")) (record s { world = record s.world { manager = m } }),
        rw (decoded, asked, empty),
        (_, refl, refl, refl),
        held,
        refl,
      )

  -- With the lock free and no file of the empty name, a download of a URL that is not in the table
  -- is answered with 404; after it an upload to the low directory, whose file can be written in
  -- full, never comes to its end.
  pub download_blocks_upload :
      (get put : Request) (url name content : Text) (s : Session)
      → let path = c.low_storage_dir ++ name in
        url_decode get.path ≡ ok url
        → find url s.world.manager.table ≡ none
        → s.world.manager.lock ≡ unlocked
        → exists [] s.world.disk ≡ false
        → IsUpload base64_decode put name (codes "low") content
        → is_low_path path ≡ true
        → 2 ≤ length path
        → Writable h path (length content) (create_directory c.low_storage_dir s.world.disk)
        → (s' : Session) × (download j b base64_decode h c strerror junk get s ≡ ok s')
          × Replied 404 [] s s'
          × (upload j b base64_decode h c strerror junk put s' ≡ err deadlock)
  unfolding upload_as upload_into
  download_blocks_upload get put url name content s decoded missing free empty u low long room =
      let path : Text = c.low_storage_dir ++ name in
      let (s', asked, replied, held, same) = download_miss get url s decoded missing free empty in
      let d0 : Disk = create_directory c.low_storage_dir s'.world.disk in
      let room' : Writable h path (length content) d0 =
        subst (λ d. Writable h path (length content) (create_directory c.low_storage_dir d))
          (sym same) room in
      let (done, there, others, now) = set_content-Holds h path content d0 room' in
      (
        s',
        asked,
        replied,
        upload-upload_as j b base64_decode h c strerror junk put name (codes "low") content s' u
            ∙ ap (λ o. upload_into j b base64_decode h c strerror junk o name content s')
                (storage_dir-low c)
            ∙ rw (store_upload-low j b base64_decode h c strerror junk path content d0 low done) (
                finish_upload-IsHeld path content (on_disk (set_content h path content d0).1 s')
                  held there long),
      )
