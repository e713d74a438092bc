-- ===== src/LogSystem/Example/Whole.antt =====
-- src/examples/test.cpp: the whole run of the example, from its logger to its log files.
use asyn_log_system.Prelude.Table.{assign, find}
use asyn_log_system.LogSystem.Manager.{start_manager, insert_new, logger_exist, add_logger}
use asyn_log_system.LogSystem.Flush.Create.{new_roll_file_flush, new_file_flush}
use asyn_log_system.LogSystem.ThreadPool
use asyn_log_system.LogSystem.MyLog
use asyn_log_system.LogSystem.Manager
use asyn_log_system.LogSystem.Start.{name_of, Started, started, manage, default_logger}
use asyn_log_system.LogSystem.Start.Ready.{Configures}
use asyn_log_system.LogSystem.Util.{FileSystem, create_directory, path_of}
use asyn_log_system.LogSystem.Example.{example_start}
use asyn_log_system.Json.{Json}
use asyn_log_system.LogSystem.Example.Files.{test_from-both, file_log, lines}
use asyn_log_system.LogSystem.Logger.Calls.{text_of-stamped, calls_of, length-calls_of}
use asyn_log_system.LogSystem.Worker.Turns.{take_turns-stop, most_after, IsLost, stop_after}
use asyn_log_system.LogSystem.Worker.Pushing.{take_turns, message_of, AllFit, Turn}
use asyn_log_system.LogSystem.Worker.Wait.{Live, live, moves}
use asyn_log_system.Prelude.{◌⊎◌, inl, inr, subst}
use asyn_log_system.LogSystem.Worker.{returned, Reach, async_safe, drain, Worker}
use asyn_log_system.LogSystem.Worker.Shutdown.{drain-Finishes}
use asyn_log_system.LogSystem.Buffer.{max_size}
use asyn_log_system.LogSystem.Start.Delivery.{service_log}
use asyn_log_system.LogSystem.Flush.Rolling.{IsRolling, IsFresh}
use asyn_log_system.LogSystem.Flush.Streams.{total}
use asyn_log_system.LogSystem.Flush.Names.{Tm}
use asyn_log_system.LogSystem.Flush.{
  roll_over, fopen, Stream, RollFileFlush, Logs, Stdio, open_file,
}
use asyn_log_system.LogSystem.Logger.{
  to_stdout, new_logger, build_logger_flush, build_logger_name, build, to_roll, to_file,
  real_flushes, Logger,
}
use asyn_log_system.LogSystem.Config.{Config}
use asyn_log_system.LogSystem.Example.{
  number_of, count_from, example_logger, line_of_call, test_from,
}
use asyn_log_system.Prelude.Text.{text_eq, codes, Text}
use asyn_log_system.Prelude.{
  refl, sym, some_injective, ok, some, size_mod, ◌<◌, ◌+◌, ◌*◌, ◌++◌, ◌∙◌, concat, ap, subst, [],
  arith, true, ◌≤◌, ◌∷◌, length, map, ◌≡◌, List, ℕ,
}

-- The thread has returned, and after the calls of the callback at these times FileFlush.log with
-- its stream holds `sent` behind what it held, and the closed rolling files, and then the open one
-- with what its stream keeps back, hold `sent` too.
abbrev pub AreWritten : Config → Stdio → (ℕ → Tm) → Logger → Worker → Logs → Text → Type 0
AreWritten c io times logger w l sent =
    (w.pc ≡ returned)
    × (st' : Stream) × (r' : RollFileFlush) × (rst' : Stream) × (l' : Logs) × (older closed : List
        Text)
    × (cur : Text) × (real_flushes c io (calls_of times w) logger.flushs l
        ≡ ok (to_file (record { filename = file_log; stream = some st' }) ∷ to_roll r' ∷ [], l'))
    × (total st' l' ≡ l.content file_log ++ sent)
    × IsRolling (1024 * 1024) r' rst' l' older closed cur
    × (concat (closed ++ cur ∷ []) ≡ sent)

module _ (c : Config) (io : Stdio) (opens : (name : Text) → io.can_open name ≡ true) where
  -- The loop's lines, pushed in their turns, reach both kinds of files.
  take_turns-both :
      (at : ℕ → Tm) (tid file : Text) (rounds : ℕ) (turns : List Turn) (steps between : ℕ)
      (times : ℕ → Tm) (l : Logs)
      → map message_of turns ≡ map (line_of_call at tid file) (test_from rounds 1)
      → most_after c turns ≤ max_size
      → AllFit c.buffer_size turns
      → IsFresh service_log 1 l
      → 1 ≤ rounds
      → 1 + length (lines at tid file rounds) < size_mod
      → (logger : Logger) × (v : Live) × (example_logger c (open_file io file_log) ≡ some logger)
        × (take_turns c turns (live logger.worker) ≡ ok v)
        × (IsLost steps between v
            ⊎ AreWritten c io times logger
                (moves 7 (stop_after steps between v)).worker
                l
                (lines at tid file rounds))
        × (map number_of (test_from rounds 1) ≡ count_from (3 * rounds) 1)
  take_turns-both at tid file rounds turns steps between times l messages high fits fresh
        some_rounds short =
      let sent : Text = lines at tid file rounds in
      let (v, w, all, any_r, stopped, p, outcome) =
        take_turns-stop c async_safe turns steps between high fits in
      let r : Reach c async_safe w sent = subst (Reach c async_safe w) (ap concat messages) any_r in
      let few = length-calls_of times w sent (omega arith) r stopped p in
      let (gone, whole) = drain-Finishes w sent (omega arith) r stopped p in
      let (
        logger, st', r', rst', l', older, closed, cur, built, made, done, held, rolling, rolled,
        numbered,
      ) =
        test_from-both c io opens at tid file rounds w (calls_of times (drain 7 w)) l (omega arith)
          r stopped p (text_of-stamped times 0 (drain 7 w).delivered) fresh some_rounds
          (omega arith) (omega (arith, few)) in
      (
        logger,
        v,
        built,
        ap (λ x. take_turns c turns (live x)) made ∙ all,
        elim outcome [
          | inl lost ↦ inl lost
          | inr same ↦ inr (
              subst (λ x. AreWritten c io times logger x l sent) (sym same)
                (gone, st', r', rst', l', older, closed, cur, done, held, rolling, rolled))
        ],
        numbered,
      )

module _ (j : Json) (fs : FileSystem) (stdio : fs.State → Stdio)
    (opens : (s : fs.State) (name : Text) → (stdio s).can_open name ≡ true) where
  -- `main` up to the loop, with settings.
  example_start-ok :
      (s : fs.State) (c : Config)
      → Configures j fs s c
      → (log : Started) × (s' : fs.State) × (logger : Logger) × (example_start j fs stdio s
          ≡ ok (some log, s'))
        × (MyLog.get_logger (codes "asynclogger") log.manager ≡ some logger)
        × (example_logger c (open_file (stdio s') file_log) ≡ some logger)
        × (log.pool ≡ ThreadPool.init c.thread_count)
  unfolding example_start example_logger new_file_flush new_roll_file_flush started manage
      default_logger build build_logger_name build_logger_flush text_eq MyLog.get_logger
      Manager.get_logger add_logger logger_exist insert_new start_manager find assign open_file
      fopen
  example_start-ok s c e =
      let s1 = (create_directory fs (path_of file_log) s).1 in
      let s2 = (create_directory fs (path_of service_log) s1).1 in
      let logger : Logger =
        new_logger c (codes "asynclogger")
          (to_file (record {
            filename = file_log;
            stream = some (record { name = file_log; pending = [] });
          })
            ∷ to_roll (roll_over service_log (1024 * 1024))
            ∷ [])
          async_safe in
      let from_start : Logger = new_logger c (codes "default") (to_stdout [] ∷ []) async_safe in
      let log : Started = record {
        config = c;
        pool = ThreadPool.init c.thread_count;
        manager = add_logger name_of (λ m. m) logger (start_manager name_of from_start);
      } in
      (log, s2, logger, rw (e, opens s1 file_log) refl, refl, rw (opens s2 file_log) refl, refl)

  -- If config.conf gives settings and every file can be opened, main of the example comes to its
  -- loop with the logger that it has built under its name. The lines of some positive number of
  -- rounds of the loop, numbered from 1 to three times the number of rounds, made at any times,
  -- each of at most buffer_size bytes and together less than 2^64 - 1, are then pushed in their
  -- turns by one thread to that logger, with any number of steps of its consumer thread before
  -- each, before Stop sets stop_, and before Stop notifies that thread. Every push gets through.
  -- Then either both parts of Stop come while the thread is between its test and its sleep, and it
  -- never returns, unless it wakes up by itself; or it returns, and after the calls of the
  -- callback that it has made by then, at any local times, FileFlush.log with its stream holds
  -- what the file held and then all the lines in order, and the closed rolling files and then the
  -- open one with what its stream keeps back, opened under names of which no file holds anything,
  -- hold the same lines in order. Twice the threshold, buffer_size, and linear_growth and
  -- buffer_size for each line are together at most 2^63 - 1.
  pub example_start-both :
      (s : fs.State) (c : Config) (at : ℕ → Tm) (tid file : Text) (rounds : ℕ) (turns : List Turn)
      (steps between : ℕ) (times : ℕ → Tm) (l : Logs)
      → Configures j fs s c
      → map message_of turns ≡ map (line_of_call at tid file) (test_from rounds 1)
      → most_after c turns ≤ max_size
      → AllFit c.buffer_size turns
      → IsFresh service_log 1 l
      → 1 ≤ rounds
      → 1 + length (lines at tid file rounds) < size_mod
      → (log : Started) × (s' : fs.State) × (logger : Logger) × (v : Live) × (example_start j fs
            stdio s
          ≡ ok (some log, s'))
        × (MyLog.get_logger (codes "asynclogger") log.manager ≡ some logger)
        × (take_turns c turns (live logger.worker) ≡ ok v)
        × (IsLost steps between v
            ⊎ AreWritten c
                (stdio s')
                times
                logger
                (moves 7 (stop_after steps between v)).worker
                l
                (lines at tid file rounds))
        × (map number_of (test_from rounds 1) ≡ count_from (3 * rounds) 1)
  example_start-both s c at tid file rounds turns steps between times l e messages high fits fresh
        some_rounds short =
      let (log, s', logger, up, got, built, pool) = example_start-ok s c e in
      let (logger', v, built', all, outcome, numbered) =
        take_turns-both c (stdio s') (opens s') at tid file rounds turns steps between times l
          messages high fits fresh some_rounds short in
      let same : logger' ≡ logger = some_injective (sym built' ∙ built) in
      (
        log,
        s',
        logger,
        v,
        up,
        got,
        ap (λ x. take_turns c turns (live x.worker)) (sym same) ∙ all,
        subst
            (λ x.
              IsLost steps between v
              ⊎ AreWritten c (stdio s') times x (moves 7 (stop_after steps between v)).worker l
                  (lines at tid file rounds))
            same outcome,
        numbered,
      )
