-- ===== src/LogSystem/Logger.antt =====
-- logSystem/logsCode/AsyncLogger.hpp: a logger hands each message to its worker, and the bytes that
-- the worker delivers to its flushers. The five methods for the levels are in Logger/Levels.
pub mod Serialize
pub mod Levels
pub mod Delivery
pub mod Beside
pub mod Calls
pub mod Backup
mod Tests
use asyn_log_system.Prelude.{
  ℕ, ◌≡◌, Bool, true, false, ◌||◌, List, [], ◌∷◌, ◌++◌, Option, none, some, if◌then◌else◌, Result,
  ok, err, ◌>>=◌,
}
use asyn_log_system.Prelude.Text.{Text, codes, c_str, text_eq}
use asyn_log_system.LogSystem.Config.{Config}
use asyn_log_system.LogSystem.ThreadPool
use asyn_log_system.LogSystem.ThreadPool.{Pool, enqueue}
use asyn_log_system.LogSystem.Worker
use asyn_log_system.LogSystem.Worker.{AsyncType, async_safe, Worker, Refusal}
use asyn_log_system.LogSystem.Flush.{
  Logs, Stdio, Fault, FileFlush, RollFileFlush, flush_file, flush_roll,
}
use asyn_log_system.LogSystem.Flush.Names.{Tm}
use asyn_log_system.LogSystem.Message.{Level, error, fatal, LogMessage, format}

-- `LogFlush` and the classes derived from it; `StdoutFlush` with what it has written.
pub data LogFlush : Type 0 where
  to_stdout : Text → LogFlush
  to_file : FileFlush → LogFlush
  to_roll : RollFileFlush → LogFlush

-- `AsyncLogger`.
pub record Logger : Type 0 where
  pub logger_name : Text
  pub flushs : List LogFlush
  pub worker : Worker

-- A logger beside the thread pool that all loggers use.
pub record System : Type 0 where
  pub logger : Logger
  pub pool : Pool Text

-- What `serialize` sends to the backup server.
unfoldable pub is_backed_up : Level → Bool
is_backed_up error = true
is_backed_up fatal = true
is_backed_up _ = false

-- `tp->enqueue(start_backup, data)` with its `try`.
try_enqueue : Text → Pool Text → Pool Text
try_enqueue message p = elim (enqueue message p) [ err reason ↦ p | ok p' ↦ p' ]

-- `serialize(level, file, line, ret)`, at some time and on some thread. The second part of the
-- result is the pool, which the message has reached even if `Push` is still to go through.
unfoldable pub serialize :
    Config → Tm → Text → Level → Text → ℕ → Text → System → Result Refusal Logger × Pool Text
unfolding try_enqueue
serialize c now tid level file line payload s =
    let message = format (record {
      line = line;
      ctime = now;
      filename = file;
      name = s.logger.logger_name;
      payload = payload;
      tid = tid;
      level = level;
    }) in
    let pool = if is_backed_up level then try_enqueue message s.pool else s.pool in
    ((do w ← Worker.push c message s.logger.worker; ok (record s.logger { worker = w })), pool)

module _ (c : Config) (io : Stdio) (now : Tm) where
  -- `e->Flush(data, len)`.
  unfoldable pub flush : Text → LogFlush → Logs → Result Fault (LogFlush × Logs)
  flush s (to_stdout out) l = ok (to_stdout (out ++ s), l)
  flush s (to_file f) l = do (f', l') ← flush_file c io s f l; ok (to_file f', l')
  flush s (to_roll r) l = do (r', l') ← flush_roll c io now s r l; ok (to_roll r', l')

  -- `RealFlush(buffer)` on the buffer's readable bytes.
  unfoldable pub real_flush : Text → List LogFlush → Logs → Result Fault (List LogFlush × Logs)
  real_flush s [] l = ok ([], l)
  real_flush s (e ∷ es) l = do
    (e', l') ← flush s e l
    (es', l'') ← real_flush s es l'
    ok (e' ∷ es', l'')

-- The calls of the callback, one after the other, each at its local time.
unfoldable pub real_flushes :
    Config → Stdio → List (Tm × Text) → List LogFlush → Logs → Result Fault (List LogFlush × Logs)
real_flushes c io [] es l = ok (es, l)
real_flushes c io ((now, s) ∷ rest) es l = do
  (es', l') ← real_flush c io now s es l
  real_flushes c io rest es' l'

-- `AsyncLogger(logger_name, flush, type)`, with the worker that it starts.
abbrev pub new_logger : Config → Text → List LogFlush → AsyncType → Logger
new_logger c name flushs t = record {
  logger_name = name;
  flushs = flushs;
  worker = Worker.init c t;
}

-- `LoggerBuilder`.
pub record LoggerBuilder : Type 0 where
  pub logger_name : Text
  pub flushs : List LogFlush
  pub async_type : AsyncType

abbrev pub builder : LoggerBuilder
builder = record { logger_name = codes "async_logger"; flushs = []; async_type = async_safe }

-- `BuildLoggerName(name)`, `BuildLoggerType(type)` and `BuildLoggerFlush(args)`, the last with the
-- flusher that the factory makes.
unfoldable pub build_logger_name : Text → LoggerBuilder → LoggerBuilder
build_logger_name name b = record b { logger_name = name }

unfoldable pub build_logger_type : AsyncType → LoggerBuilder → LoggerBuilder
build_logger_type t b = record b { async_type = t }

unfoldable pub build_logger_flush : LogFlush → LoggerBuilder → LoggerBuilder
build_logger_flush e b = record b { flushs = b.flushs ++ e ∷ [] }

is_nil : List LogFlush → Bool
is_nil [] = true
is_nil (e ∷ es) = false

-- `Build()`; `none` is a failed `assert`.
unfoldable pub build : Config → LoggerBuilder → Option Logger
unfolding is_nil
build c b =
    if text_eq b.logger_name []
    then none
    else some (
        new_logger c b.logger_name (if is_nil b.flushs then to_stdout [] ∷ [] else b.flushs)
          b.async_type)
