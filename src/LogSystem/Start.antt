-- ===== src/LogSystem/Start.antt =====
-- src/server/Test.cpp, `log_system_module_inti`: the start of the logging system.
pub mod Missing
pub mod Ready
pub mod Delivery
pub mod Whole
pub mod Loggers
use asyn_log_system.LogSystem.Worker.{next}
use asyn_log_system.Prelude.Text.{codes, Text}
use asyn_log_system.Prelude.{◌>>=◌, ok, err, Result, ◌*◌, none, some, Option, Result}
use asyn_log_system.LogSystem.Config.{Config, NotConvertible, read_config}
use asyn_log_system.LogSystem.Util.{FileSystem, create_directory, path_of}
use asyn_log_system.LogSystem.ThreadPool
use asyn_log_system.LogSystem.ThreadPool.{Pool}
use asyn_log_system.LogSystem.Flush.{roll_over}
use asyn_log_system.LogSystem.Logger.{
  Logger, LogFlush, to_roll, builder, build_logger_name, build_logger_flush, build,
}
use asyn_log_system.LogSystem.Manager.{LoggerManager, start_manager, add_logger}
use asyn_log_system.Json.{Json}

abbrev pub name_of : Logger → Text
name_of l = l.logger_name

-- What the start leaves behind: the settings, the pool, and the table of loggers.
pub record Started : Type 0 where
  pub config : Config
  pub pool : Pool Text
  pub manager : LoggerManager name_of

-- The logger of the service.
unfoldable pub service_logger : Config → Option Logger
service_logger c = build c (
    build_logger_flush (to_roll (roll_over (codes "./logfile/RollFile_log") (1024 * 1024)))
      (build_logger_name (codes "asynclogger") builder))

-- `LoggerManager()`: the logger that is there from the start.
unfoldable pub default_logger : Config → Option Logger
default_logger c = build c (build_logger_name (codes "default") builder)

-- `AddLogger` on the new manager; `none` is a failed `assert`.
unfoldable pub manage : Option Logger → Option Logger → Option (LoggerManager name_of)
manage none l = none
manage (some d) none = none
manage (some d) (some l) = some (add_logger name_of (λ m. m) l (start_manager name_of d))

unfoldable pub started : Config → Option (LoggerManager name_of) → Option Started
started c none = none
started c (some m) =
    some (record { config = c; pool = ThreadPool.init c.thread_count; manager = m })

module _ (j : Json) (fs : FileSystem) where
  -- `log_system_module_inti()`, with the directory that `RollFileFlush` makes.
  unfoldable pub log_system_module_init :
      fs.State → Result NotConvertible (Option Started × fs.State)
  log_system_module_init s = do
    c ← read_config j fs s
    let (made, s') = create_directory fs (path_of (codes "./logfile/RollFile_log")) s
    ok (started c (manage (default_logger c) (service_logger c)), s')
