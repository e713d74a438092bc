-- ===== src/LogSystem/Config.antt =====
-- logSystem/logsCode/Config.hpp: the settings that the other parts read through `g_conf_data`, and
-- how they are read from config.conf.
pub mod Read
use asyn_log_system.Prelude.{ℕ, ◌%◌, ◌^◌, [], Option, none, some, Result, ok, err, ◌>>=◌}
use asyn_log_system.Prelude.Text.{Text, codes}
use asyn_log_system.Json.{Json}
use asyn_log_system.LogSystem.Util.{FileSystem, get_content, unserialize}

-- `mylog::Config`; sizes are `size_t`, the port `uint16_t`.
pub record Config : Type 0 where
  pub buffer_size : ℕ
  pub threshold : ℕ
  pub linear_growth : ℕ
  pub flush_log : ℕ
  pub backup_addr : Text
  pub backup_port : ℕ
  pub thread_count : ℕ

-- `Config_File`.
abbrev pub config_file : Text
config_file = codes "../../logSystem/logsCode/config.conf"

-- The exception that ends the program.
pub data NotConvertible : Type 0 where
  not_convertible : NotConvertible

required {ℓ} : {A : Type ℓ} → Option A → Result NotConvertible A
required none = err not_convertible
required (some a) = ok a

module _ (j : Json) where
  open j use {Value, null, member, as_int, as_int64, as_string}

  -- The assignments of `Config()`.
  unfoldable pub config_of : Value → Result NotConvertible Config
  unfolding required
  config_of root = do
    buffer_size ← required (as_int64 (member root (codes "buffer_size")))
    threshold ← required (as_int64 (member root (codes "threshold")))
    linear_growth ← required (as_int64 (member root (codes "linear_growth")))
    flush_log ← required (as_int64 (member root (codes "flush_log")))
    backup_addr ← required (as_string (member root (codes "backup_addr")))
    backup_port ← required (as_int (member root (codes "backup_port")))
    thread_count ← required (as_int (member root (codes "thread_count")))
    ok (record {
      buffer_size = buffer_size;
      threshold = threshold;
      linear_growth = linear_growth;
      flush_log = flush_log;
      backup_addr = backup_addr;
      backup_port = backup_port % 2 ^ 16;
      thread_count = thread_count;
    })

  -- `Config()`. What GetContent and UnSerialize return is not used but for a message.
  unfoldable pub read_config : (fs : FileSystem) → fs.State → Result NotConvertible Config
  read_config fs s = config_of (unserialize j (get_content fs [] config_file s).1 null).1
