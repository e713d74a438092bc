-- ===== src/Server/Config.antt =====
-- src/server/Config.hpp: the settings of the service, and how they are read.
pub mod Read
pub mod Instance
use asyn_log_system.Prelude.{ℕ, Bool, true, false, [], Option, none, some, Result, ok, err, ◌>>=◌}
use asyn_log_system.Prelude.Text.{Text, codes}
use asyn_log_system.Json.{Json, unserialize}
use asyn_log_system.Server.Disk.{Disk, Host, get_content}
use asyn_log_system.Server.DataManager.RwLock.{Fault, json_error}

-- `storage::Config`.
pub record Config : Type 0 where
  pub server_port : ℕ
  pub server_ip : Text
  pub download_prefix : Text
  pub deep_storage_dir : Text
  pub low_storage_dir : Text
  pub storage_info : Text
  pub uncompress_dir : Text
  pub bundle_format : ℕ

-- A new object: its numbers are not initialised and have any value.
abbrev pub unread : ℕ → Config
unread junk = record {
  server_port = junk;
  server_ip = [];
  download_prefix = [];
  deep_storage_dir = [];
  low_storage_dir = [];
  storage_info = [];
  uncompress_dir = [];
  bundle_format = junk;
}

-- `config_file`.
abbrev pub config_file : Text
config_file = codes "Storage.conf"

required {ℓ} : {A : Type ℓ} → Option A → Result Fault A
required none = err json_error
required (some a) = ok a

module _ (j : Json) (h : Host) where
  open j use {Value, null, member, as_int, as_string}

  -- The assignments of `ReadConfig`.
  unfoldable pub config_of : Value → Result Fault Config
  unfolding required
  config_of root = do
    server_port ← required (as_int (member root (codes "server_port")))
    server_ip ← required (as_string (member root (codes "server_ip")))
    download_prefix ← required (as_string (member root (codes "download_prefix")))
    storage_info ← required (as_string (member root (codes "storage_info")))
    deep_storage_dir ← required (as_string (member root (codes "deep_storage_dir")))
    low_storage_dir ← required (as_string (member root (codes "low_storage_dir")))
    bundle_format ← required (as_int (member root (codes "bundle_format")))
    uncompress_dir ← required (as_string (member root (codes "uncompress_dir")))
    ok (record {
      server_port = server_port;
      server_ip = server_ip;
      download_prefix = download_prefix;
      deep_storage_dir = deep_storage_dir;
      low_storage_dir = low_storage_dir;
      storage_info = storage_info;
      uncompress_dir = uncompress_dir;
      bundle_format = bundle_format;
    })

  read_content : ℕ → Option Text → Result Fault (Bool × Config)
  read_content junk none = ok (false, unread junk)
  read_content junk (some content) = do c ← config_of (unserialize j content null).1; ok (true, c)

  -- `ReadConfig()` on a new object, with its result; the constructor goes on after `false`.
  unfoldable pub read_config : ℕ → Disk → Result Fault (Bool × Config)
  unfolding read_content
  read_config junk d = read_content junk (get_content h config_file d)
