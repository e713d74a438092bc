-- ===== src/LogSystem/Start/Ready.antt =====
-- src/server/Test.cpp, `log_system_module_inti`: a start with settings.
use asyn_log_system.Prelude.Text.{text_eq}
use asyn_log_system.Prelude.{refl, some, ok, ◌≡◌}
use asyn_log_system.Json.{Json}
use asyn_log_system.LogSystem.Logger.{build_logger_flush, build_logger_name, build}
use asyn_log_system.LogSystem.ThreadPool
use asyn_log_system.LogSystem.Config.{Config, read_config}
use asyn_log_system.LogSystem.Start.{
  Started, manage, started, service_logger, default_logger, log_system_module_init,
}
use asyn_log_system.LogSystem.Util.{FileSystem}

-- The settings of the logging system, and that config.conf gives them.
abbrev pub LogConfig : Type 0
LogConfig = Config

abbrev pub Configures : (j : Json) (fs : FileSystem) → fs.State → LogConfig → Type 0
Configures j fs s c = read_config j fs s ≡ ok c

-- With settings the logging system always starts.
pub log_system_module_init-ok :
    (j : Json) (fs : FileSystem) (s : fs.State) (c : Config)
    → Configures j fs s c
    → (log : Started) × (s' : fs.State) × (log_system_module_init j fs s ≡ ok (some log, s'))
      × (log.config ≡ c)
      × (log.pool ≡ ThreadPool.init c.thread_count)
unfolding log_system_module_init started manage service_logger default_logger build
    build_logger_name build_logger_flush text_eq
log_system_module_init-ok j fs s c e = rw e (_, _, refl, refl, refl)
