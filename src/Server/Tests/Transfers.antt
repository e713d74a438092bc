-- ===== src/Server/Tests/Transfers.antt =====
-- The theorems on uploads, downloads and restarts at concrete requests.
use Prim.Native.String.{String}
use asyn_log_system.Prelude.{false, ◌≡◌, refl, true, [], ◌∷◌, Option, none, some, ok, err, arith}
use asyn_log_system.Prelude.Text.{Text, codes, text_eq, ne_of_text_eq, contains, begins, after_last}
use asyn_log_system.Prelude.Table.{find}
use asyn_log_system.Server.Disk.{exists, create_directory}
use asyn_log_system.Server.DataManager.RwLock.{deadlock}
use asyn_log_system.Server.Url.{url_decode, from_hex}
use asyn_log_system.Server.Service.{
  Request, Session, upload, upload_input, upload_body, upload_as, upload_into, send, download,
  or_null, or_bad_base64,
}
use asyn_log_system.Server.Service.Paths.{storage_dir, is_low_path, is_raw, unpacked_path}
use asyn_log_system.Server.Service.Effects.{Replied}
use asyn_log_system.Server.Service.Stores.{IsUpload}
use asyn_log_system.Server.Service.RoundTrip.{IsServable}
use asyn_log_system.Server.Service.Replies.{Sends, upload-Sends, replies_to_upload, replies_to_body}
use asyn_log_system.Server.Service.Misses.{download_blocks_upload}
use asyn_log_system.Json.Sample.{json}
use asyn_log_system.Server.Tests.Sample.{bundle, host, config, fresh, first_off}

-- `base64_decode` on the one header that is used.
abbrev pub decoder : String → Text → Option Text
decoder name header = some (codes name)

abbrev pub put : String → Request
put storage_type = record {
  path = codes "/upload";
  body = some (codes "hi!");
  copies = true;
  file_name = some (codes "YS50eHQ=");
  storage_type = some (codes storage_type);
}

abbrev pub get : String → Request
get path = record {
  path = codes path;
  body = none;
  copies = true;
  file_name = none;
  storage_type = none;
}

pub put-IsUpload :
    (name storage_type : String)
    → IsUpload (decoder name) (put storage_type) (codes name) (codes storage_type) (codes "hi!")
put-IsUpload name storage_type = record {
  sent = refl;
  some_bytes = omega arith;
  copied = refl;
  header = codes "YS50eHQ=";
  named = refl;
  decoded = refl;
  typed = refl;
}

pub deep-IsServable :
    IsServable bundle host config (codes "./deep_storage/a.txt") (4 ∷ codes "hi!") (codes "hi!")
unfolding is_raw contains begins unpacked_path after_last first_off text_eq
deep-IsServable = record {
  not_raw = refl;
  short = omega arith;
  readable = refl;
  unpacks = refl;
  target_opens = refl;
  target_fits = omega arith;
  target_readable = refl;
  target_ne = ne_of_text_eq _ _ refl;
}

download_blocks_upload_example :
    (s : Session) × (download json bundle
        (decoder "a.txt")
        host
        config
        []
        0
        (get "/download/none")
        fresh
      ≡ ok s)
    × Replied 404 [] fresh s
    × (upload json bundle (decoder "a.txt") host config [] 0 (put "low") s ≡ err deadlock)
unfolding url_decode from_hex is_low_path contains begins text_eq create_directory exists find
download_blocks_upload_example =
    download_blocks_upload json bundle (decoder "a.txt") host config [] 0 (get "/download/none")
      (put "low") (codes "/download/none") (codes "a.txt") (codes "hi!") fresh refl refl refl refl
      (put-IsUpload "a.txt" "low") refl (omega arith)
      (record { opens = refl; free = λ e. cc; fits = omega arith })

-- An upload of a storage type that does not exist, and one whose body cannot be copied.
abbrev uncopied : Request
uncopied = record (put "warm") { copies = false }

abbrev answered : Session
answered = record fresh {
  replies =
      record { code = 500; reason = none; headers = []; body = [] }
      ∷ record { code = 400; reason = some (codes "Illegal storage type"); headers = []; body = [] }
      ∷ [];
}

upload-Sends_example : Sends 2 fresh answered
unfolding upload upload_input upload_body upload_as upload_into storage_dir text_eq send or_null
    or_bad_base64 replies_to_upload replies_to_body
upload-Sends_example =
    upload-Sends json bundle (decoder "a.txt") host config [] 0 uncopied fresh answered refl
