-- ===== src/Server/Config/Read.antt =====
-- src/server/Config.hpp: settings that were written as a JSON object are read back.
use asyn_log_system.Json.Objects.{member-object, object}
use asyn_log_system.Prelude.{ℕ, ◌≡◌, ◌<◌, ◌^◌, refl, true, [], ◌∷◌, length, some, ok, size_mod}
use asyn_log_system.Prelude.Text.{Text, codes, text_eq}
use asyn_log_system.Prelude.Table.{Table, find}
use asyn_log_system.Json.{Json, JsonLaws, unserialize_parsed}
use asyn_log_system.Server.Disk.{Disk, Host}
use asyn_log_system.Server.Disk.Laws.{Holds, get_content-Holds}
use asyn_log_system.Server.Config.{Config, config_file, config_of, read_config, read_content}

module _ (j : Json) where
  -- The members that `ReadConfig` looks for.
  abbrev pub members : Config → Table j.Value
  members c =
      (codes "server_port", j.int64 c.server_port)
      ∷ (codes "server_ip", j.string c.server_ip)
      ∷ (codes "download_prefix", j.string c.download_prefix)
      ∷ (codes "deep_storage_dir", j.string c.deep_storage_dir)
      ∷ (codes "low_storage_dir", j.string c.low_storage_dir)
      ∷ (codes "bundle_format", j.int64 c.bundle_format)
      ∷ (codes "storage_info", j.string c.storage_info)
      ∷ (codes "uncompress_dir", j.string c.uncompress_dir)
      ∷ []

  config_of-object :
      (h : Host) (laws : JsonLaws j) (c : Config)
      → c.server_port < 2 ^ 31
      → c.bundle_format < 2 ^ 31
      → config_of j h (object j (members c)) ≡ ok c
  unfolding config_of find text_eq
  config_of-object h laws c port format =
      let at = member-object j laws (members c) in
      rw
        (
          at (codes "server_port") (j.int64 c.server_port) refl,
          laws.as_int-int64 c.server_port port,
          at (codes "server_ip") (j.string c.server_ip) refl,
          laws.as_string-string c.server_ip,
          at (codes "download_prefix") (j.string c.download_prefix) refl,
          laws.as_string-string c.download_prefix,
          at (codes "storage_info") (j.string c.storage_info) refl,
          laws.as_string-string c.storage_info,
          at (codes "deep_storage_dir") (j.string c.deep_storage_dir) refl,
          laws.as_string-string c.deep_storage_dir,
          at (codes "low_storage_dir") (j.string c.low_storage_dir) refl,
          laws.as_string-string c.low_storage_dir,
          at (codes "bundle_format") (j.int64 c.bundle_format) refl,
          laws.as_int-int64 c.bundle_format format,
          at (codes "uncompress_dir") (j.string c.uncompress_dir) refl,
          laws.as_string-string c.uncompress_dir,
        )
        refl

-- If the configuration file can be read and its text parses to an object with the eight members,
-- the settings are those; the two numbers fit into an int.
pub read_config-object :
    (j : Json) (laws : JsonLaws j) (h : Host) (junk : ℕ) (d : Disk) (body : Text) (c : Config)
    → Holds d config_file body
    → length body < size_mod
    → h.can_read config_file ≡ true
    → j.parse body ≡ some (object j (members j c))
    → c.server_port < 2 ^ 31
    → c.bundle_format < 2 ^ 31
    → read_config j h junk d ≡ ok (true, c)
unfolding read_config read_content
read_config-object j laws h junk d body c held short readable parsed port format = rw (
  get_content-Holds h config_file body d held short readable,
  unserialize_parsed j j.null _ body parsed,
  config_of-object j h laws c port format,
)
