-- ===== src/Server/Service/Paths.antt =====
-- src/server/Service.hpp: the tests on paths that `Upload` and `Download` make.
use asyn_log_system.Prelude.{Bool, Option, none, some, ◌++◌, ◌==◌, if◌then◌else◌}
use asyn_log_system.Prelude.Text.{Text, codes, text_eq, contains, after_last}
use asyn_log_system.Server.Config.{Config}

-- The directory for a `StorageType`; `none` is an illegal one.
unfoldable pub storage_dir : Config → Text → Option Text
storage_dir c t =
    if text_eq t (codes "low")
    then some c.low_storage_dir
    else if text_eq t (codes "deep")
    then some c.deep_storage_dir
    else none

-- What `Upload` stores as it is.
unfoldable pub is_low_path : Text → Bool
is_low_path path = contains (codes "low_storage") path

-- What `Download` serves as it is.
unfoldable pub is_raw : Config → Text → Bool
is_raw c path = contains c.low_storage_dir path

-- Where `Download` unpacks a file.
unfoldable pub unpacked_path : Config → Text → Text
unpacked_path c path = c.uncompress_dir ++ after_last (λ x. x == b'/') path
