-- ===== src/LogSystem/Logger/Tests.antt =====
-- Loggers at concrete values.
use asyn_log_system.LogSystem.Logger.Backup.{method-serve_all, method-out_of_bounds}
use asyn_log_system.LogSystem.Backlog.Store.{IsShort}
use asyn_log_system.Prelude.Decimal.{decimal}
use asyn_log_system.LogSystem.Backlog.Connect.{first_success}
use asyn_log_system.LogSystem.Backlog.{out_of_bounds, start_backup, serve_all, client_info, LogFile}
use asyn_log_system.LogSystem.Logger.Levels.{method_lem, IsLogged, method}
use asyn_log_system.Prelude.{
  length, ◌≤◌, ◌↔◌, err, replicate, ◌==◌, Result, ◌≡◌, refl, ◌⊎◌, true, List, [], ◌∷◌, ◌++◌, some,
  ok, arith,
}
use asyn_log_system.Prelude.Text.{c_str, Text, codes, text_eq}
use asyn_log_system.Prelude.Table.{find}
use asyn_log_system.LogSystem.Config.{Config}
use asyn_log_system.LogSystem.ThreadPool
use asyn_log_system.LogSystem.ThreadPool.{Pool}
use asyn_log_system.LogSystem.Worker
use asyn_log_system.LogSystem.Worker.{
  AsyncType, async_unsafe, waiting, returned, Worker, Refusal, Reach, start, next, pushes, stops,
  request_stop, drain, can_push, lift_fault,
}
use asyn_log_system.LogSystem.Flush.{Logs, Stream, Stdio}
use asyn_log_system.LogSystem.Flush.Names.{Tm}
use asyn_log_system.LogSystem.Message.{to_string, format, error}
use asyn_log_system.LogSystem.Logger.{Logger, System, LogFlush, to_file}
use asyn_log_system.LogSystem.Logger.Serialize.{line_of}
use asyn_log_system.LogSystem.Manager.{
  LoggerManager, start_manager, get_logger, insert_new, add_logger, add_logger_lem,
  insert_new-keeps,
}

abbrev config : Config
config = record {
  buffer_size = 64;
  threshold = 128;
  linear_growth = 64;
  flush_log = 1;
  backup_addr = codes "127.0.0.1";
  backup_port = 8080;
  thread_count = 1;
}

abbrev io : Stdio
io = record { can_open = λ name. true; passes = λ n. n }

abbrev now : Tm
now = record { year = 125; mon = 0; mday = 1; hour = 9; min = 5; sec = 0 }

abbrev system : System
system = record {
  logger = record {
    logger_name = codes "default";
    flushs = [];
    worker = Worker.init config async_unsafe;
  };
  pool = ThreadPool.init 1;
}

method_lem_example :
    (logged : Result Refusal Logger) × (pool : Pool Text) × (method config now
        (codes "1")
        error
        (codes "a.cpp")
        12
        (some (codes "no"))
        system
      ≡ some (logged, pool))
    × IsLogged config now
        (codes "1")
        true
        (line_of now (codes "1") error (codes "a.cpp") 12 (codes "no") (codes "default"))
        system
        logged
        pool
method_lem_example = method_lem config now (codes "1") error (codes "a.cpp") 12 (codes "no") system

abbrev stream : Stream
stream = record { name = codes "app.log"; pending = [] }

abbrev logs : Logs
logs = record { content = λ q. codes "old "; synced = λ q. [] }

abbrev file_flusher : Stream → List LogFlush
file_flusher st = to_file (record { filename = codes "app.log"; stream = some st }) ∷ []

abbrev manager : LoggerManager (λ (n : Text). n)
manager = start_manager (λ n. n) (codes "default")

-- Two threads add a logger of the same name.
add_logger_lem_example :
    let m' = add_logger (λ n. n) (insert_new (λ n. n) (codes "b")) (codes "b") manager in
    (get_logger (λ n. n) (codes "default") m' ≡ some (codes "default"))
    × (r : Text) × (get_logger (λ n. n) (codes "b") m' ≡ some r)
    × ((r ≡ codes "b")
        ⊎ (get_logger (λ n. n) (codes "b") (insert_new (λ n. n) (codes "b") manager) ≡ some r))
unfolding get_logger start_manager find text_eq
add_logger_lem_example =
    add_logger_lem (λ n. n) (insert_new (λ n. n) (codes "b")) (codes "b") manager (codes "default")
      (codes "default") (insert_new-keeps (λ n. n) (codes "b") manager) refl

-- The third attempt to connect succeeds.
abbrev backup_file : LogFile
backup_file = record { content = codes "old "; opens = true; room = 1000 }

abbrev backup_line : Text
backup_line = line_of now (codes "1") error (codes "a.cpp") 12 (codes "no") (codes "default")

line-IsShort : IsShort backup_line
unfolding format decimal c_str to_string
line-IsShort = record { some_bytes = λ e. omega arith; fits = omega arith; plain = refl }

method-serve_all_example :
    (logged : Result Refusal Logger) × (pool : Pool Text) × (f' : LogFile) × (method config now
        (codes "1")
        error
        (codes "a.cpp")
        12
        (some (codes "no"))
        system
      ≡ some (logged, pool))
    × (pool.queue.tasks ≡ system.pool.queue.tasks ++ backup_line ∷ [])
    × (serve_all
          ((codes "127.0.0.1", 9, (start_backup (λ i. i == 2) (λ m. some m) backup_line).0) ∷ [])
          backup_file
        ≡ ok f')
    × (f'.content ≡ codes "old " ++ (client_info (codes "127.0.0.1") 9 ++ backup_line))
unfolding first_success client_info decimal format to_string ThreadPool.init
method-serve_all_example =
    method-serve_all config now (codes "1") error (codes "a.cpp") 12 (codes "no") system
      (λ i. i == 2) 2 (codes "127.0.0.1") 9 backup_file refl refl refl line-IsShort refl
      (omega arith)

-- A text that is too long for the server.
abbrev long_line : Text
long_line = line_of now (codes "1") error (codes "a.cpp") 12 (replicate 1024 b'x') (codes "default")

method-out_of_bounds_example :
    (logged : Result Refusal Logger) × (pool : Pool Text) × (method config now
        (codes "1")
        error
        (codes "a.cpp")
        12
        (some (replicate 1024 b'x'))
        system
      ≡ some (logged, pool))
    × (pool.queue.tasks ≡ system.pool.queue.tasks ++ long_line ∷ [])
    × ((serve_all
            ((codes "127.0.0.1", 9, (start_backup (λ i. i == 2) (λ m. some m) long_line).0) ∷ [])
            backup_file
          ≡ err out_of_bounds)
        ↔ (1024 ≤ length long_line))
unfolding first_success ThreadPool.init
method-out_of_bounds_example =
    method-out_of_bounds config now (codes "1") error (codes "a.cpp") 12 (replicate 1024 b'x')
      system (λ i. i == 2) 2 (codes "127.0.0.1") 9 backup_file refl refl refl
