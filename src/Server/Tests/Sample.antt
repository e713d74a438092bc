-- ===== src/Server/Tests/Sample.antt =====
-- Instances of what the service takes as parameters: a compression library that adds one byte, an
-- operating system that allows all, with iterations that start at the entry inserted last, and an
-- empty disk.
use mathlib.Core.List.Permᴰ
use mathlib.Core.List.{reverse}
use asyn_log_system.Prelude.{true, [], ◌∷◌, none}
use asyn_log_system.Prelude.Text.{Text, codes}
use asyn_log_system.Server.Config.{Config}
use asyn_log_system.Server.Disk.{Disk, Host, Bundle}
use asyn_log_system.Server.DataManager.RwLock.{unlocked}
use asyn_log_system.Server.Service.{Session}

unfoldable pub first_off : Text → Text
first_off [] = []
first_off (x ∷ s) = s

abbrev pub bundle : Bundle
bundle = record { pack = λ format s. format ∷ s; unpack = first_off }

abbrev pub host : Host
host = record {
  can_write = λ p. true;
  can_read = λ p. true;
  room = λ p. 100000;
  directory_size = 4096;
  order = λ t. reverse t;
  order-Permᴰ = λ t. Permᴰ.reverse t;
}

-- Storage.conf.
abbrev pub config : Config
config = record {
  server_port = 8081;
  server_ip = codes "113.44.12.54";
  download_prefix = codes "/download/";
  deep_storage_dir = codes "./deep_storage/";
  low_storage_dir = codes "./low_storage/";
  storage_info = codes "./storage.data";
  uncompress_dir = codes "./uncompress/";
  bundle_format = 4;
}

abbrev pub empty_disk : Disk
empty_disk = record { nodes = λ p. none; now = 1700000000 }

-- The service after its first start.
abbrev pub fresh : Session
fresh = record {
  world = record {
    manager = record { storage_file = config.storage_info; lock = unlocked; table = [] };
    disk = empty_disk;
  };
  replies = [];
}
