-- ===== src/LogSystem/Tests.antt =====
-- The theorems on directories, settings and the start at a small file system.
use asyn_log_system.LogSystem.Worker.{drain}
use asyn_log_system.LogSystem.Worker.Turns.{IsLost, stop_after}
use asyn_log_system.LogSystem.Worker.Pushing.{Turn, take_turns}
use asyn_log_system.LogSystem.Worker.Wait.{Live, live, moves}
use asyn_log_system.Prelude.{◌⊎◌}
use asyn_log_system.LogSystem.Start.Whole.{log_system_module_init-to_roll, IsRolled}
use asyn_log_system.LogSystem.Logger.Serialize.{line_of}
use asyn_log_system.LogSystem.Logger.Levels.{IsLogged}
use asyn_log_system.LogSystem.Message.{error}
use asyn_log_system.LogSystem.MyLog.{log_to}
use asyn_log_system.LogSystem.Start.Loggers.{log_to-started, loggers_of}
use asyn_log_system.LogSystem.ThreadPool.{Pool}
use asyn_log_system.LogSystem.Flush.Names.{Tm}
use asyn_log_system.LogSystem.Sample.{
  settings-Configures, with_settings, file_system-FileSystemLaws, settings_text, settings, is_there,
  file_system,
}
use asyn_log_system.LogSystem.Flush.Create.{new_file_flush-flush_file, new_file_flush}
use asyn_log_system.LogSystem.Flush.{write_stream, flush_file, Logs, Stdio, Stream}
use asyn_log_system.LogSystem.Manager.{get_logger}
use asyn_log_system.LogSystem.Logger.{Logger}
use asyn_log_system.Prelude.Text.{has, codes, text_eq, Text}
use asyn_log_system.Prelude.{Result, err, some, refl, ok, [], arith, false, ◌≡◌, true, ◌∷◌, List}
use asyn_log_system.LogSystem.Worker.{Refusal}
use asyn_log_system.LogSystem.MyLog
use asyn_log_system.LogSystem.Config.{config_file, read_config}
use asyn_log_system.LogSystem.Util.{make_part, make_at, make_from, unserialize, create_directory}
use asyn_log_system.LogSystem.Util.Directories.{ends_name, ends_in_name, create_directory_lem}
use asyn_log_system.LogSystem.Config.Read.{read_config-members}
use asyn_log_system.LogSystem.Start.{
  default_logger, service_logger, Started, name_of, log_system_module_init,
}
use asyn_log_system.LogSystem.Start.Missing.{log_system_module_init-missing}
use asyn_log_system.LogSystem.Worker.{drain, push, would_block}
use asyn_log_system.Json.Sample.{json, json_laws}

create_directory_lem_example :
    let (done, s') = create_directory (file_system false []) (codes "./logs/today/") [] in
    (is_there (codes "./logs/today") s' ≡ true) × (is_there (codes ".") s' ≡ true)
unfolding is_there text_eq create_directory make_from make_at make_part ends_in_name ends_name
create_directory_lem_example =
    create_directory_lem (file_system false []) (file_system-FileSystemLaws false [])
      (codes "./logs/today") (codes "/") (codes ".") [] refl refl refl refl refl

read_config-members_example :
    read_config json (file_system true settings_text) (config_file ∷ []) ≡ ok settings
unfolding is_there text_eq
read_config-members_example =
    read_config-members json json_laws (file_system true settings_text) (config_file ∷ [])
      settings_text settings refl refl refl refl refl (omega arith) (omega arith) (omega arith)
      (omega arith) (omega arith) (omega arith)

log_system_module_init-missing_example :
    (st : Started) × (s' : List Text) × (log_system_module_init json (file_system false []) []
      ≡ ok (some st, s'))
    × (st.pool.workers ≡ [])
    × (l : Logger) × (get_logger name_of (codes "asynclogger") st.manager ≡ some l)
    × (push st.config (codes "hi") (drain 7 l.worker) ≡ err would_block)
unfolding unserialize
log_system_module_init-missing_example =
    log_system_module_init-missing json json_laws (file_system false []) [] 7 (codes "hi") refl refl
      (omega arith)

-- Files open in ./logfile once it is there.
abbrev stdio : List Text → Stdio
stdio s = record { can_open = λ p. is_there (codes "./logfile") s; passes = λ n. n }

abbrev no_logs : Logs
no_logs = record { content = λ q. []; synced = λ q. [] }

abbrev log_stream : Stream
log_stream = record { name = codes "./logfile/app.log"; pending = [] }

not_there : is_there (codes "./logfile/") [] ≡ true → is_there (codes "./logfile") [] ≡ true
unfolding is_there text_eq
not_there e = cc e

new_file_flush-flush_file_example :
    let (f, s') = new_file_flush (file_system false []) stdio (codes "./logfile/app.log") [] in
    (f.stream ≡ some log_stream)
    × (flush_file settings (stdio []) (codes "hi") f no_logs
        ≡ ok (
          record f {
            stream = some (write_stream settings (stdio []) (codes "hi") log_stream no_logs).0;
          },
          (write_stream settings (stdio []) (codes "hi") log_stream no_logs).1,
        ))
unfolding has ends_in_name create_directory make_from make_at make_part is_there text_eq
new_file_flush-flush_file_example =
    new_file_flush-flush_file (file_system false []) (file_system-FileSystemLaws false []) stdio
      settings (stdio []) (codes "./logfile") (codes "app.log") (codes "hi") b'/' [] no_logs refl
      refl refl not_there (λ s e. e) refl

abbrev morning : Tm
morning = record { year = 125; mon = 0; mday = 31; hour = 8; min = 0; sec = 0 }

-- Two messages, with steps of the consumer between them.
abbrev two_turns : List Turn
two_turns = (0, codes "no") ∷ (2, codes "yes") ∷ []

log_system_module_init-to_roll_example :
    (log : Started) × (s' : List Text) × (logger : Logger) × (v : Live) × (log_system_module_init
        json
        (file_system true settings_text)
        with_settings
      ≡ ok (some log, s'))
    × (MyLog.get_logger (codes "asynclogger") log.manager ≡ some logger)
    × (take_turns settings two_turns (live logger.worker) ≡ ok v)
    × (IsLost 1 2 v
        ⊎ IsRolled settings
            (stdio (codes "./logfile" ∷ []))
            (λ i. morning)
            logger
            (moves 7 (stop_after 1 2 v)).worker
            no_logs
            (codes "noyes"))
unfolding is_there text_eq
log_system_module_init-to_roll_example =
    log_system_module_init-to_roll json (file_system true settings_text) with_settings settings
      (stdio (codes "./logfile" ∷ [])) two_turns 1 2 (λ i. morning) no_logs settings-Configures
      (λ name. refl) (omega arith) (omega arith, (omega arith, tt)) (λ t k le. refl) (omega arith)
      (omega arith)

log_to-started_example :
    (log : Started) × (s' : List Text) × (logged : Result Refusal Logger) × (pool : Pool Text)
    × (service : Logger) × (log_system_module_init json
          (file_system true settings_text)
          with_settings
        ≡ ok (some log, s'))
    × ((name : Text) → MyLog.get_logger name log.manager ≡ loggers_of settings name)
    × (default_logger settings ≡ some (MyLog.default_logger log.manager))
    × (service_logger settings ≡ some service)
    × (log_to settings morning
          (codes "1")
          (codes "asynclogger")
          error
          (codes "a.cpp")
          12
          (some (codes "no"))
          log.manager
          log.pool
        ≡ some (logged, pool))
    × IsLogged settings morning
        (codes "1")
        true
        (line_of morning (codes "1") error (codes "a.cpp") 12 (codes "no") (codes "asynclogger"))
        (record { logger = service; pool = log.pool })
        logged
        pool
log_to-started_example =
    log_to-started json (file_system true settings_text) with_settings settings morning (codes "1")
      error (codes "a.cpp") 12 (codes "no") settings-Configures
