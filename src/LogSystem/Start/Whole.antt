-- ===== src/LogSystem/Start/Whole.antt =====
-- src/server/Test.cpp and logSystem/logsCode: the messages for the service's logger, from the start of
-- the logging system to its end.
use asyn_log_system.Prelude.Table.{assign, find}
use asyn_log_system.LogSystem.Manager.{start_manager, insert_new, logger_exist, add_logger}
use asyn_log_system.LogSystem.MyLog
use asyn_log_system.LogSystem.Manager
use asyn_log_system.LogSystem.Start.{
  Started, started, manage, default_logger, log_system_module_init,
}
use asyn_log_system.LogSystem.Start.Ready.{Configures}
use asyn_log_system.LogSystem.Util.{FileSystem}
use asyn_log_system.Json.{Json}
use asyn_log_system.LogSystem.Buffer.{max_size}
use asyn_log_system.Prelude.{refl, sym, some_injective, ◌∙◌, ◌++◌, ◌*◌}
use asyn_log_system.LogSystem.Start.{service_logger}
use asyn_log_system.LogSystem.Logger.{
  build_logger_flush, build_logger_name, build, to_roll, real_flushes, Logger,
}
use asyn_log_system.LogSystem.Flush.Rolling.{IsRolling, IsFresh}
use asyn_log_system.LogSystem.Worker.Shutdown.{drain-Finishes}
use asyn_log_system.LogSystem.Worker.Turns.{take_turns-stop, most_after, IsLost, stop_after}
use asyn_log_system.LogSystem.Worker.Pushing.{take_turns, message_of, AllFit, Turn}
use asyn_log_system.LogSystem.Worker.Wait.{Live, live, moves}
use asyn_log_system.Prelude.{◌⊎◌, inl, inr, subst}
use asyn_log_system.Prelude.Text.{text_eq, codes, Text}
use asyn_log_system.LogSystem.Flush.{Stream, RollFileFlush, Logs, Stdio}
use asyn_log_system.LogSystem.Worker
use asyn_log_system.LogSystem.Worker.{returned, async_safe, request_stop, drain, Worker}
use asyn_log_system.LogSystem.Flush.Names.{Tm}
use asyn_log_system.LogSystem.Config.{Config}
use asyn_log_system.Prelude.{
  ok, some, size_mod, ◌<◌, ◌+◌, concat, ap, [], arith, true, ◌≤◌, ◌∷◌, length, map, ◌≡◌, List, ℕ,
}
use asyn_log_system.LogSystem.Logger.Calls.{text_of-stamped, calls_of, length-calls_of}
use asyn_log_system.LogSystem.Start.Delivery.{service_logger-to_roll, service_log}

-- The thread has returned, and after the calls of the callback at these times the closed rolling
-- files, and then the open one with what its stream keeps back, hold `sent`.
abbrev pub IsRolled : Config → Stdio → (ℕ → Tm) → Logger → Worker → Logs → Text → Type 0
IsRolled c io at logger w l sent =
    (w.pc ≡ returned)
    × (r' : RollFileFlush) × (st' : Stream) × (l' : Logs) × (older closed : List Text)
    × (cur : Text) × (real_flushes c io (calls_of at w) logger.flushs l ≡ ok (to_roll r' ∷ [], l'))
    × IsRolling (1024 * 1024) r' st' l' older closed cur
    × (concat (closed ++ cur ∷ []) ≡ sent)

module _ (c : Config) (io : Stdio) (opens : (name : Text) → io.can_open name ≡ true) where
  -- Messages pushed in their turns to the service's logger reach the rolling files.
  take_turns-to_roll :
      (turns : List Turn) (steps between : ℕ) (at : ℕ → Tm) (l : Logs)
      → most_after c turns ≤ max_size
      → AllFit c.buffer_size turns
      → IsFresh service_log 1 l
      → 1 ≤ length (concat (map message_of turns))
      → 1 + length (concat (map message_of turns)) < size_mod
      → (logger : Logger) × (v : Live) × (service_logger c ≡ some logger)
        × (take_turns c turns (live logger.worker) ≡ ok v)
        × (IsLost steps between v
            ⊎ IsRolled c io at logger
                (moves 7 (stop_after steps between v)).worker
                l
                (concat (map message_of turns)))
  take_turns-to_roll turns steps between at l high fits fresh some_bytes short =
      let sent : Text = concat (map message_of turns) in
      let (v, w, all, r, stopped, p, outcome) =
        take_turns-stop c async_safe turns steps between high fits in
      let few = length-calls_of at w sent (omega arith) r stopped p in
      let (logger, r', st', l', older, closed, cur, built, made, done, rolling, held) =
        service_logger-to_roll c io opens w sent (calls_of at (drain 7 w)) l (omega arith) r stopped
          p (text_of-stamped at 0 (drain 7 w).delivered) fresh some_bytes (omega arith)
          (omega (arith, few)) in
      let (gone, whole) = drain-Finishes w sent (omega arith) r stopped p in
      (
        logger,
        v,
        built,
        ap (λ x. take_turns c turns (live x)) made ∙ all,
        elim outcome [
          | inl lost ↦ inl lost
          | inr same ↦ inr (
              subst (λ x. IsRolled c io at logger x l sent) (sym same)
                (gone, r', st', l', older, closed, cur, done, rolling, held))
        ],
      )

-- The start, and the logger that GetLogger finds then.
pub log_system_module_init-logger :
    (j : Json) (fs : FileSystem) (s : fs.State) (c : Config)
    → Configures j fs s c
    → (log : Started) × (s' : fs.State) × (logger : Logger) × (log_system_module_init j fs s
        ≡ ok (some log, s'))
      × (MyLog.get_logger (codes "asynclogger") log.manager ≡ some logger)
      × (service_logger c ≡ some logger)
      × (log.config ≡ c)
      × (logger.worker ≡ Worker.init c async_safe)
unfolding log_system_module_init started manage service_logger default_logger build
    build_logger_name build_logger_flush text_eq MyLog.get_logger Manager.get_logger add_logger
    logger_exist insert_new start_manager find assign
log_system_module_init-logger j fs s c e = rw e (_, _, _, refl, refl, refl, refl, refl)

-- If config.conf gives settings, the start comes to its end and GetLogger finds the service's
-- logger. Messages of at most buffer_size bytes, some byte and less than 2^64 - 1 of them
-- together, are then pushed in their turns by one thread to that logger, with any number of steps
-- of its consumer thread before each, before Stop sets stop_, and before Stop notifies that
-- thread. Every push gets through. Then either both parts of Stop come while the thread is between
-- its test and its sleep, and it never returns, unless it wakes up by itself; or it returns, and
-- after the calls of the callback that it has made by then, at any local times, the closed rolling
-- log files and then the open one with what its stream keeps back, opened under names of which no
-- file holds anything, hold the messages in order, each closed file at least 1 MiB. Every file can
-- be opened, and twice the threshold, buffer_size, and linear_growth and buffer_size for each
-- message are together at most 2^63 - 1.
pub log_system_module_init-to_roll :
    (j : Json) (fs : FileSystem) (s : fs.State) (c : Config) (io : Stdio) (turns : List Turn)
    (steps between : ℕ) (at : ℕ → Tm) (l : Logs)
    → Configures j fs s c
    → ((name : Text) → io.can_open name ≡ true)
    → most_after c turns ≤ max_size
    → AllFit c.buffer_size turns
    → IsFresh service_log 1 l
    → 1 ≤ length (concat (map message_of turns))
    → 1 + length (concat (map message_of turns)) < size_mod
    → (log : Started) × (s' : fs.State) × (logger : Logger) × (v : Live) × (log_system_module_init j
          fs s
        ≡ ok (some log, s'))
      × (MyLog.get_logger (codes "asynclogger") log.manager ≡ some logger)
      × (take_turns c turns (live logger.worker) ≡ ok v)
      × (IsLost steps between v
          ⊎ IsRolled c io at logger
              (moves 7 (stop_after steps between v)).worker
              l
              (concat (map message_of turns)))
log_system_module_init-to_roll j fs s c io turns steps between at l e opens high fits fresh
      some_bytes short =
    let (log, s', logger, up, got, built, _, _) = log_system_module_init-logger j fs s c e in
    let (logger', v, built', all, outcome) =
      take_turns-to_roll c io opens turns steps between at l high fits fresh some_bytes short in
    let same : logger' ≡ logger = some_injective (sym built' ∙ built) in
    (
      log,
      s',
      logger,
      v,
      up,
      got,
      ap (λ x. take_turns c turns (live x.worker)) (sym same) ∙ all,
      subst
          (λ x.
            IsLost steps between v
            ⊎ IsRolled c io at x (moves 7 (stop_after steps between v)).worker l
                (concat (map message_of turns)))
          same outcome,
    )
