-- ===== src/LogSystem/Start/Missing.antt =====
-- src/server/Test.cpp and logSystem/logsCode/Config.hpp: a start without config.conf.
use asyn_log_system.Prelude.Table.{assign, find}
use asyn_log_system.Prelude.Text.{text_eq, codes}
use asyn_log_system.LogSystem.Manager.{
  start_manager, insert_new, logger_exist, add_logger, get_logger,
}
use asyn_log_system.LogSystem.Logger.{build_logger_flush, build_logger_name, build, Logger}
use asyn_log_system.Json.{JsonLaws, Json}
use asyn_log_system.Prelude.{refl, arith, err, some, length, ◌≤◌, List, ℕ, ok, false, ◌≡◌, []}
use asyn_log_system.LogSystem.Util.{unserialize, FileSystem, get_content}
use asyn_log_system.LogSystem.Config.{config_file, Config, read_config}
use asyn_log_system.LogSystem.Start.{
  Started, name_of, service_logger, default_logger, manage, started, log_system_module_init,
}
use asyn_log_system.LogSystem.Worker
use asyn_log_system.LogSystem.Buffer
use asyn_log_system.LogSystem.ThreadPool
use asyn_log_system.LogSystem.Worker.{async_safe, drain, push, would_block}
use asyn_log_system.LogSystem.Worker.Producers.{drain_oversized}
use asyn_log_system.LogSystem.Worker.Invariant.{init-Inv}
use asyn_log_system.LogSystem.Config.Read.{config_of-null}

-- The settings that a null value gives.
abbrev pub no_config : Config
no_config = record {
  buffer_size = 0;
  threshold = 0;
  linear_growth = 0;
  flush_log = 0;
  backup_addr = [];
  backup_port = 0;
  thread_count = 0;
}

read_config-missing :
    (j : Json) (laws : JsonLaws j) (fs : FileSystem) (s : fs.State)
    → fs.opens config_file s ≡ false
    → (unserialize j [] j.null).1 ≡ j.null
    → read_config j fs s ≡ ok no_config
unfolding read_config get_content
read_config-missing j laws fs s closed nothing = rw (closed, nothing) (config_of-null j laws)

-- A worker of the safe type with empty buffers lets no byte through.
drain_empty :
    (n : ℕ) (ds : List ℕ)
    → 1 ≤ length ds
    → push no_config ds (drain n (Worker.init no_config async_safe)) ≡ err would_block
unfolding Worker.init Buffer.init
drain_empty n ds some_bytes =
    drain_oversized n ds (init-Inv no_config async_safe (omega arith)) refl (omega arith)
      (omega arith)

-- If config.conf cannot be opened and the JSON library leaves null as it is for an empty text, the
-- start goes on: the thread pool has no worker, and a message for the logger of the service waits
-- in Push however many steps the logger's own thread makes.
pub log_system_module_init-missing :
    (j : Json) (laws : JsonLaws j) (fs : FileSystem) (s : fs.State) (n : ℕ) (ds : List ℕ)
    → fs.opens config_file s ≡ false
    → (unserialize j [] j.null).1 ≡ j.null
    → 1 ≤ length ds
    → (st : Started) × (s' : fs.State) × (log_system_module_init j fs s ≡ ok (some st, s'))
      × (st.pool.workers ≡ [])
      × (l : Logger) × (get_logger name_of (codes "asynclogger") st.manager ≡ some l)
      × (push st.config ds (drain n l.worker) ≡ err would_block)
unfolding log_system_module_init ThreadPool.init started manage service_logger default_logger build
    build_logger_name build_logger_flush add_logger logger_exist insert_new start_manager get_logger
    find assign text_eq
log_system_module_init-missing j laws fs s n ds closed nothing some_bytes =
    rw (read_config-missing j laws fs s closed nothing)
      (_, _, refl, refl, _, refl, drain_empty n ds some_bytes)
