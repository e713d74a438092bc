-- ===== src/LogSystem/Start/Loggers.antt =====
-- src/server/Test.cpp and logSystem/logsCode: the loggers that there are after the start.
use asyn_log_system.LogSystem.Flush.{roll_over}
use asyn_log_system.LogSystem.Logger.Serialize.{line_of}
use asyn_log_system.LogSystem.Logger.Levels.{method_lem, is_serious, IsLogged}
use asyn_log_system.LogSystem.ThreadPool.{Pool}
use asyn_log_system.LogSystem.Worker.{async_safe, Refusal}
use asyn_log_system.LogSystem.Message.{Level}
use asyn_log_system.LogSystem.Flush.Names.{Tm}
use asyn_log_system.Json.{Json}
use asyn_log_system.LogSystem.Manager.{start_manager, insert_new, logger_exist, add_logger}
use asyn_log_system.Prelude.{
  refl, ◌*◌, ok, Result, ℕ, refl, some, none, ◌≡◌, [], if◌then◌else◌, ◌∷◌, Option,
}
use asyn_log_system.LogSystem.Logger.{to_roll, build_logger_flush, build_logger_name, Logger, build}
use asyn_log_system.Prelude.Text.{codes, text_eq, Text}
use asyn_log_system.Prelude.Table.{assign, find}
use asyn_log_system.LogSystem.Worker
use asyn_log_system.LogSystem.ThreadPool
use asyn_log_system.LogSystem.MyLog
use asyn_log_system.LogSystem.MyLog.{log_to}
use asyn_log_system.LogSystem.Manager
use asyn_log_system.LogSystem.Start.{
  manage, started, Started, log_system_module_init, service_logger, default_logger,
}
use asyn_log_system.LogSystem.Start.Ready.{LogConfig, Configures}
use asyn_log_system.LogSystem.Util.{FileSystem}

-- The loggers by their names.
abbrev pub loggers_of : LogConfig → Text → Option Logger
loggers_of c name =
    if text_eq (codes "default") name
    then default_logger c
    else if text_eq (codes "asynclogger") name
    then service_logger c
    else none

-- If config.conf gives settings, the start comes to its end, and GetLogger gives the default
-- logger and the service's logger under their names and a null pointer under any other,
-- DefaultLogger the default logger; for each level, a message whose text vasprintf makes, logged
-- to the service's logger at any place of the program, makes one push of its line with that level,
-- and is queued for the backup server exactly if the level is ERROR or FATAL.
pub log_to-started :
    (j : Json) (fs : FileSystem) (s : fs.State) (c : LogConfig) (now : Tm) (tid : Text)
    (level : Level) (file : Text) (line : ℕ) (payload : Text)
    → Configures j fs s c
    → (log : Started) × (s' : fs.State) × (logged : Result Refusal Logger) × (pool : Pool Text)
      × (service : Logger) × (log_system_module_init j fs s ≡ ok (some log, s'))
      × ((name : Text) → MyLog.get_logger name log.manager ≡ loggers_of c name)
      × (default_logger c ≡ some (MyLog.default_logger log.manager))
      × (service_logger c ≡ some service)
      × (log_to c now tid (codes "asynclogger") level file line (some payload) log.manager log.pool
          ≡ some (logged, pool))
      × IsLogged c now tid
          (is_serious level)
          (line_of now tid level file line payload (codes "asynclogger"))
          (record { logger = service; pool = log.pool })
          logged
          pool
unfolding log_system_module_init started manage service_logger default_logger build
    build_logger_name build_logger_flush text_eq MyLog.get_logger MyLog.default_logger log_to
    Manager.get_logger add_logger logger_exist insert_new start_manager find assign
log_to-started j fs s c now tid level file line payload e =
    let service : Logger = record {
      logger_name = codes "asynclogger";
      flushs = to_roll (roll_over (codes "./logfile/RollFile_log") (1024 * 1024)) ∷ [];
      worker = Worker.init c async_safe;
    } in
    let (logged, pool, done, is_logged) =
      method_lem c now tid level file line payload
        (record { logger = service; pool = ThreadPool.init c.thread_count }) in
    rw e (_, _, logged, pool, service, refl, (λ name. refl), refl, refl, done, is_logged)
