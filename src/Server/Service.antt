-- ===== src/Server/Service.antt =====
-- src/server/Service.hpp: the handlers of one HTTP request each. Log lines are not part of the
-- model. A handler that sends no reply returns the replies as they were.
pub mod Paths
pub mod Effects
pub mod Downloads
pub mod Stores
pub mod RoundTrip
pub mod Misses
pub mod Replies
use asyn_log_system.Prelude.{
  ℕ, ◌+◌, ◌-◌, ◌^◌, ◌≡◌, Bool, true, false, not, ◌&&◌, List, [], ◌∷◌, ◌++◌, length, replicate,
  Option, none, some, ltb, leb, ◌==◌, if◌then◌else◌, Result, ok, err, ◌>>=◌, size_mod,
}
use asyn_log_system.Prelude.Text.{Text, codes, text_eq, contains, after_last}
use asyn_log_system.Prelude.Decimal.{decimal}
use asyn_log_system.Server.Config.{Config}
use asyn_log_system.Json.{Json}
use asyn_log_system.Server.Disk.{
  Disk, Node, directory, file, Host, Bundle, exists, set_content, create_directory, remove,
  compress, uncompress, file_name,
}
use asyn_log_system.Server.DataManager.RwLock.{Fault, null_string, bad_base64}
use asyn_log_system.Server.DataManager.Entry.{StorageInfo, blank, new_storage_info}
use asyn_log_system.Server.DataManager.{DataManager, World, insert, get_one_by_url}
use asyn_log_system.Server.Url.{url_decode}
use Paths.{storage_dir, is_low_path, is_raw, unpacked_path}

-- What a handler reads of an `evhttp_request`: the path of the URI, the input buffer (`none` for a
-- null pointer), whether `evbuffer_copyout` succeeds, and two headers.
pub record Request : Type 0 where
  pub path : Text
  pub body : Option Text
  pub copies : Bool
  pub file_name : Option Text
  pub storage_type : Option Text

-- One `evhttp_send_reply`, with the headers and the output buffer at that time.
pub record Reply : Type 0 where
  pub code : ℕ
  pub reason : Option Text
  pub headers : List (Text × Text)
  pub body : Text

-- The service's data, and the replies sent to the request so far.
pub record Session : Type 0 where
  pub world : World
  pub replies : List Reply

-- `evhttp_send_reply(req, code, reason, NULL)` with nothing in the output buffer.
unfoldable pub send : ℕ → Option Text → Session → Session
send code reason s = record s {
  replies = s.replies ++ record { code = code; reason = reason; headers = []; body = [] } ∷ [];
}

abbrev pub on_disk : Disk → Session → Session
on_disk d s = record s { world = record s.world { disk = d } }

unfoldable pub or_null : Option Text → Result Fault Text
or_null none = err null_string
or_null (some s) = ok s

-- `std::to_string` of a `time_t`, given as its bit pattern.
unfoldable pub signed_decimal : ℕ → Text
signed_decimal n = if ltb n (2 ^ 63) then decimal n else b'-' ∷ decimal (size_mod - n)

-- `GetETag(info)`.
unfoldable pub get_etag : StorageInfo → Text
get_etag info =
    file_name info.storage_path
    ++ codes "-"
    ++ decimal info.fsize
    ++ codes "-"
    ++ signed_decimal info.mtime

-- What `evbuffer_add_file` puts into the output buffer; it fails on what is no file.
file_bytes : Option Node → Text
file_bytes none = []
file_bytes (some directory) = []
file_bytes (some (file f)) = f.content

-- The parameters stand for the JSON, compression and base64 libraries (`none` is an exception of
-- `base64_decode`), the operating system, the settings, the text of `strerror`, and the value that
-- numbers have which the code does not initialise.
module _ (j : Json) (b : Bundle) (base64_decode : Text → Option Text) (h : Host) (c : Config)
    (strerror : Text) (junk : ℕ) where
  unfoldable pub or_bad_base64 : Option Text → Result Fault Text
  or_bad_base64 none = err bad_base64
  or_bad_base64 (some s) = ok s

  -- The end of `Upload`: `NewStorageInfo`, `Insert` and the reply. The results of the first two are
  -- not used.
  unfoldable pub finish_upload : Text → Session → Result Fault Session
  finish_upload path s = do
    (known, info) ← new_storage_info c h path s.world.disk (blank junk)
    (inserted, w) ← insert j h info s.world
    ok (send 200 (some (codes "Success")) (record s { world = w }))

  -- The file is stored as it is, or packed.
  unfoldable pub store_upload : Text → Text → Disk → Bool × Disk
  store_upload path content d =
      if is_low_path path
      then set_content h path content d
      else compress h b path content c.bundle_format d

  -- `Upload` behind the choice of the directory; `none` is an illegal storage type.
  unfoldable pub upload_into : Option Text → Text → Text → Session → Result Fault Session
  upload_into none name content s = ok (send 400 (some (codes "Illegal storage type")) s)
  upload_into (some dir) name content s =
      let path = dir ++ name in
      let (stored, d) = store_upload path content (create_directory dir s.world.disk) in
      if stored
      then finish_upload path (on_disk d s)
      else ok (send 500 (some (codes "server error")) (on_disk d s))

  -- `Upload` from the file name on.
  unfoldable pub upload_as : Text → Text → Text → Session → Result Fault Session
  upload_as name storage_type content s = upload_into (storage_dir c storage_type) name content s

  -- `Upload` behind the test for an empty body. A failed copy is answered, and the handler goes on
  -- with a content of zeros.
  unfoldable pub upload_body : Request → Text → Session → Result Fault Session
  unfolding or_null or_bad_base64
  upload_body req body s = do
    let s' = if req.copies then s else send 500 none s
    let content = if req.copies then body else replicate (length body) 0
    header ← or_null req.file_name
    name ← or_bad_base64 (base64_decode header)
    storage_type ← or_null req.storage_type
    upload_as name storage_type content s'

  -- `Upload` with the input buffer.
  unfoldable pub upload_input : Option Text → Request → Session → Result Fault Session
  upload_input none req s = ok s
  upload_input (some body) req s =
      if length body == 0
      then ok (send 400 (some (codes "file empty")) s)
      else upload_body req body s

  -- `Upload(req, arg)`.
  unfoldable pub upload : Request → Session → Result Fault Session
  unfolding upload_input
  upload req s = upload_input req.body req s

  -- The third step of `Download`: the path that is served, and the disk once it is there.
  unfoldable pub unpack_download : Text → Disk → Text × Disk
  unpack_download path d =
      if is_raw c path
      then (path, d)
      else (let target = unpacked_path c path in
          (target, (uncompress h b path target (create_directory c.uncompress_dir d)).1))

  -- The reply of `Download` with the file, and the removal of what was unpacked.
  unfoldable pub serve_file : StorageInfo → Text → Session → Session
  unfolding file_bytes
  serve_file info path s =
      let reply : Reply = record {
        code = 200;
        reason = some (codes "Success");
        headers =
            (codes "Accept-Ranges", codes "bytes")
            ∷ (codes "ETag", get_etag info)
            ∷ (codes "Content-Type", codes "application/octet-stream")
            ∷ [];
        body = file_bytes (s.world.disk.nodes path);
      } in
      let sent = record s { replies = s.replies ++ reply ∷ [] } in
      if text_eq path info.storage_path then sent else on_disk (remove path s.world.disk) sent

  -- `Download` once the entry has been looked up.
  unfoldable pub download_entry : StorageInfo → Session → Session
  download_entry info s =
      if exists info.storage_path s.world.disk
      then (let (path, d) = unpack_download info.storage_path s.world.disk in
          if exists path d
          then if h.can_read path
            then serve_file info path (on_disk d s)
            else send 500 (some strerror) (on_disk d s)
          else if contains (codes "deep_storage") info.storage_path
          then send 500 none (on_disk d s)
          else on_disk d s)
      else send 404 (some (info.storage_path ++ codes "not exists")) s

  entry_or_blank : Option StorageInfo → StorageInfo
  entry_or_blank none = blank junk
  entry_or_blank (some info) = info

  -- `Download(req, arg)`. The result of `GetOneByURL` is not used.
  unfoldable pub download : Request → Session → Result Fault Session
  unfolding entry_or_blank
  download req s = do
    resource ← url_decode req.path
    (found, m) ← get_one_by_url resource s.world.manager
    ok (download_entry (entry_or_blank found) (record s { world = record s.world { manager = m } }))
