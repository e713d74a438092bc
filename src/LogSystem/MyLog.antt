-- ===== src/LogSystem/MyLog.antt =====
-- logSystem/logsCode/MyLog.hpp: how the program gets at a logger, and the macros that log with the
-- file and the line where they stand.
use asyn_log_system.LogSystem.Logger.Levels.{method}
use asyn_log_system.LogSystem.Message.{Level}
use asyn_log_system.LogSystem.Flush.Names.{Tm}
use asyn_log_system.Prelude.{none, some, Result, ℕ, Option}
use asyn_log_system.Prelude.Text.{Text}
use asyn_log_system.LogSystem.Worker.{Refusal}
use asyn_log_system.LogSystem.Config.{Config}
use asyn_log_system.LogSystem.Start.{name_of}
use asyn_log_system.LogSystem.Manager
use asyn_log_system.LogSystem.Manager.{LoggerManager}
use asyn_log_system.LogSystem.Logger.{Logger}
use asyn_log_system.LogSystem.ThreadPool.{Pool}

-- `GetLogger(name)` and `DefaultLogger()`, on the one manager; `none` is a null pointer.
unfoldable pub get_logger : Text → LoggerManager name_of → Option Logger
get_logger name m = Manager.get_logger name_of name m

unfoldable pub default_logger : LoggerManager name_of → Logger
default_logger m = m.default_logger

module _ (c : Config) (now : Tm) (tid : Text) where
  -- `GetLogger(name)->Debug(fmt, ...)` and the like, at a place of the program; `none` is a call on
  -- a null pointer, or what the method does with a text that is not there.
  unfoldable pub log_to :
      Text
      → Level
      → Text
      → ℕ
      → Option Text
      → LoggerManager name_of
      → Pool Text
      → Option (Result Refusal Logger × Pool Text)
  log_to name level file line res m pool = elim (get_logger name m) [
    | none ↦ none
    | some l ↦ method c now tid level file line res (record { logger = l; pool = pool })
  ]

  -- `LOGDEBUGDEFAULT(fmt, ...)` and the like.
  unfoldable pub log_default :
      Level
      → Text
      → ℕ
      → Option Text
      → LoggerManager name_of
      → Pool Text
      → Option (Result Refusal Logger × Pool Text)
  log_default level file line res m pool =
      method c now tid level file line res (record { logger = default_logger m; pool = pool })
