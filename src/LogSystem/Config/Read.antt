-- ===== src/LogSystem/Config/Read.antt =====
-- logSystem/logsCode/Config.hpp: what is read from a file that holds the settings, and what comes
-- of a file that cannot be opened.
use asyn_log_system.Prelude.Text.{Text, codes, text_eq}
use asyn_log_system.Prelude.{
  append-nil, take-length, ◌-◌, arith, ◌==◌, some, length, true, ◌%◌, refl, ◌^◌, ◌<◌, [], ◌∷◌, ok,
  ◌≡◌,
}
use asyn_log_system.Prelude.Table.{find, Table}
use asyn_log_system.LogSystem.Config.{Config, config_file, config_of, read_config}
use asyn_log_system.LogSystem.Util.{
  unserialize_parsed, file_size, read_sized, FileSystem, get_content,
}
use asyn_log_system.Json.{Json, JsonLaws}
use asyn_log_system.Json.Objects.{object, member-object}

module _ (j : Json) where
  -- The members that the constructor looks for.
  abbrev pub members : Config → Table j.Value
  members c =
      (codes "buffer_size", j.int64 c.buffer_size)
      ∷ (codes "threshold", j.int64 c.threshold)
      ∷ (codes "linear_growth", j.int64 c.linear_growth)
      ∷ (codes "flush_log", j.int64 c.flush_log)
      ∷ (codes "backup_addr", j.string c.backup_addr)
      ∷ (codes "backup_port", j.int64 c.backup_port)
      ∷ (codes "thread_count", j.int64 c.thread_count)
      ∷ []

module _ (j : Json) (laws : JsonLaws j) where
  config_of-object :
      (c : Config)
      → c.buffer_size < 2 ^ 63
      → c.threshold < 2 ^ 63
      → c.linear_growth < 2 ^ 63
      → c.flush_log < 2 ^ 63
      → c.backup_port < 2 ^ 31
      → c.thread_count < 2 ^ 31
      → config_of j (object j (members j c))
        ≡ ok (record c { backup_port = c.backup_port % 2 ^ 16 })
  unfolding config_of find text_eq
  config_of-object c size threshold growth level port threads =
      let at = member-object j laws (members j c) in
      rw
        (
          at (codes "buffer_size") (j.int64 c.buffer_size) refl,
          laws.as_int64-int64 c.buffer_size size,
          at (codes "threshold") (j.int64 c.threshold) refl,
          laws.as_int64-int64 c.threshold threshold,
          at (codes "linear_growth") (j.int64 c.linear_growth) refl,
          laws.as_int64-int64 c.linear_growth growth,
          at (codes "flush_log") (j.int64 c.flush_log) refl,
          laws.as_int64-int64 c.flush_log level,
          at (codes "backup_addr") (j.string c.backup_addr) refl,
          laws.as_string-string c.backup_addr,
          at (codes "backup_port") (j.int64 c.backup_port) refl,
          laws.as_int-int64 c.backup_port port,
          at (codes "thread_count") (j.int64 c.thread_count) refl,
          laws.as_int-int64 c.thread_count threads,
        )
        refl

  pub config_of-null :
      config_of j j.null
      ≡ ok (record {
        buffer_size = 0;
        threshold = 0;
        linear_growth = 0;
        flush_log = 0;
        backup_addr = [];
        backup_port = 0;
        thread_count = 0;
      })
  unfolding config_of
  config_of-null =
      rw
        (
          laws.member-null (codes "buffer_size"),
          laws.member-null (codes "threshold"),
          laws.member-null (codes "linear_growth"),
          laws.member-null (codes "flush_log"),
          laws.member-null (codes "backup_addr"),
          laws.member-null (codes "backup_port"),
          laws.member-null (codes "thread_count"),
          laws.as_int64-null,
          laws.as_int-null,
          laws.as_string-null,
        )
        refl

-- A file that can be opened is read whole.
get_content_whole :
    (fs : FileSystem) (content name body : Text) (s : fs.State)
    → fs.opens name s ≡ true
    → fs.stat name s ≡ true
    → fs.size name s ≡ length body
    → fs.bytes name s ≡ body
    → get_content fs content name s ≡ (true, body)
unfolding get_content read_sized file_size
get_content_whole fs content name body s opened there size found =
    let same : (length body == length body) ≡ true = ground arith in
    let none_left : length body - length body ≡ 0 = omega arith in
    rw (opened, there, size, found, take-length body, same, none_left, append-nil body) refl

-- If config.conf can be read and its text parses to an object with the seven members, the settings
-- are those, the port without all but its low 16 bits; sizes are below 2^63, and port and number
-- of threads fit into an int.
pub read_config-members :
    (j : Json) (laws : JsonLaws j) (fs : FileSystem) (s : fs.State) (body : Text) (c : Config)
    → fs.opens config_file s ≡ true
    → fs.stat config_file s ≡ true
    → fs.size config_file s ≡ length body
    → fs.bytes config_file s ≡ body
    → j.parse body ≡ some (object j (members j c))
    → c.buffer_size < 2 ^ 63
    → c.threshold < 2 ^ 63
    → c.linear_growth < 2 ^ 63
    → c.flush_log < 2 ^ 63
    → c.backup_port < 2 ^ 31
    → c.thread_count < 2 ^ 31
    → read_config j fs s ≡ ok (record c { backup_port = c.backup_port % 2 ^ 16 })
unfolding read_config
read_config-members j laws fs s body c opened there size found parsed b1 b2 b3 b4 b5 b6 =
    rw
      (
        get_content_whole fs [] config_file body s opened there size found,
        unserialize_parsed j j.null _ body parsed,
      )
      (config_of-object j laws c b1 b2 b3 b4 b5 b6)
