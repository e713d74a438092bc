-- ===== src/Server/Tests/Manager.antt =====
-- The theorems on the table, its file, on ranges of files and on URLs at concrete values.
use asyn_log_system.Prelude.{
  ◌==◌, ◌^◌, if◌then◌else◌, ◌≡◌, refl, true, [], ◌∷◌, none, some, ok, err, arith,
}
use asyn_log_system.Prelude.Text.{Text, codes, text_eq, c_str}
use asyn_log_system.Prelude.Table.{find, assign, values}
use asyn_log_system.Server.Disk.{Disk, file}
use asyn_log_system.Server.DataManager.RwLock.{json_error, unlocked}
use asyn_log_system.Server.DataManager.Entry.{StorageInfo, to_array, to_json}
use asyn_log_system.Server.DataManager.{DataManager, World, insert, construct}
use asyn_log_system.Server.DataManager.Reload.{construct-insert, construct_too_big, Stored}
use asyn_log_system.Server.Url.{url_decode}
use asyn_log_system.Server.Url.Laws.{url_decode-url_encode, url_encode}
use asyn_log_system.Server.Config.{config_file, read_config}
use asyn_log_system.Json.Objects.{object}
use asyn_log_system.Server.Config.Read.{members, read_config-object}
use asyn_log_system.Json.Sample.{json, json_laws}
use asyn_log_system.Server.Tests.Sample.{host, config, empty_disk}

abbrev entry : StorageInfo
entry = record {
  mtime = 1700000000;
  atime = 1700000000;
  fsize = 3;
  storage_path = codes "./low_storage/a.txt";
  url = codes "/download/low_storage/a.txt";
}

abbrev big : StorageInfo
big = record entry { fsize = 2 ^ 31 }

abbrev manager : DataManager
manager = record { storage_file = config.storage_info; lock = unlocked; table = [] }

abbrev world : World
world = record { manager = manager; disk = empty_disk }

abbrev body_of : StorageInfo → Text
body_of info = to_array json (info ∷ []) json.null

construct-insert_example :
    (w' w'' : World) × (insert json host entry world ≡ ok (true, w'))
    × (construct json host config w'.disk ≡ ok w'')
    × ((k : Text) → find k w''.manager.table ≡ find k w'.manager.table)
unfolding assign values c_str to_array to_json
construct-insert_example =
    construct-insert json json_laws host config entry world (body_of entry) refl refl tt
      (
        record {
          mtime_small = omega arith;
          atime_small = omega arith;
          fsize_small = omega arith;
          path_plain = refl;
          url_plain = refl;
        },
        tt,
      )
      refl (omega arith) (record { opens = refl; free = λ e. cc; fits = omega arith }) refl

-- A disk on which the storage file lists one file of 2 GiB.
abbrev big_disk : Disk
big_disk = record {
  nodes = λ p.
      if text_eq config.storage_info p
      then some (file (record { content = body_of big; mtime = 0; atime = 0 }))
      else none;
  now = 1700000000;
}

construct_too_big_example : construct json host config big_disk ≡ err json_error
unfolding Stored values text_eq to_array to_json c_str
construct_too_big_example =
    construct_too_big json json_laws host config big_disk [] [] big
      (body_of big, (_, refl, refl), omega arith, refl) tt (omega arith) (omega arith) refl

url_decode-url_encode_example :
    url_decode (url_encode (λ c. c == b'a') (codes "a b")) ≡ ok (codes "a b")
url_decode-url_encode_example =
    url_decode-url_encode (λ c. c == b'a') (codes "a b") refl
      (omega arith, (omega arith, (omega arith, tt)))

abbrev pub config_body : Text
config_body = object json (members json config)

abbrev pub config_disk : Disk
config_disk = record {
  nodes = λ p.
      if text_eq config_file p
      then some (file (record { content = config_body; mtime = 0; atime = 0 }))
      else none;
  now = 1700000000;
}

read_config-object_example : read_config json host 0 config_disk ≡ ok (true, config)
unfolding text_eq
read_config-object_example =
    read_config-object json json_laws host 0 config_disk config_body config (_, refl, refl)
      (omega arith) refl refl (omega arith) (omega arith)
