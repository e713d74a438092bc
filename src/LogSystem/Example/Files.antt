-- ===== src/LogSystem/Example/Files.antt =====
-- src/examples/test.cpp: what the loop leaves in the log files.
use asyn_log_system.LogSystem.Logger.Beside.{real_flushes-both}
use asyn_log_system.LogSystem.Worker.Shutdown.{drain-Finishes}
use asyn_log_system.LogSystem.Message.{format}
use asyn_log_system.LogSystem.Config.{Config}
use asyn_log_system.LogSystem.Flush.Rolling.{IsRolling, IsFresh, IsApart}
use asyn_log_system.LogSystem.Flush.{
  RollFileFlush, Stream, Logs, roll_over, Stdio, fopen, open_file,
}
use asyn_log_system.Prelude.{
  append-nil, length-append, sym, ◌++◌, ok, size_mod, ◌<◌, ◌≢◌, length, ◌≤◌, List, concat, zero,
  ◌∙◌, ap, ◌∷◌, ◌+◌, arith, [], some, suc, ◌*◌, true, ◌≡◌, refl, map, ℕ,
}
use asyn_log_system.LogSystem.Example.{
  line_of_call, count_from, number_of, example_logger, test_from,
}
use asyn_log_system.Prelude.Text.{ne_of_text_eq, text_eq, codes, Text}
use asyn_log_system.LogSystem.Flush.Names.{text_of, Tm, create_filename}
use asyn_log_system.LogSystem.Buffer.{max_size}
use asyn_log_system.LogSystem.Start.Delivery.{first_flush, service_log}
use asyn_log_system.LogSystem.Worker
use asyn_log_system.LogSystem.Worker.{next, Worker, Reach, drain, returned, async_safe}
use asyn_log_system.LogSystem.Flush.Streams.{total}
use asyn_log_system.LogSystem.Logger.{
  Logger, build, build_logger_name, build_logger_flush, to_file, to_roll, real_flushes,
}

abbrev pub file_log : Text
file_log = codes "./logfile/FileFlush.log"

file_log-IsApart : IsApart file_log service_log
unfolding create_filename text_eq
file_log-IsApart t k = ne_of_text_eq _ _ refl

numbers : (rounds cnt : ℕ) → map number_of (test_from rounds cnt) ≡ count_from (3 * rounds) cnt
unfolding test_from
numbers zero cnt = refl
numbers (suc rounds) cnt =
    let three : 3 * suc rounds ≡ suc (suc (suc (3 * rounds))) = omega arith in
    let later : count_from (3 * rounds) (cnt + 3) ≡ count_from (3 * rounds) (cnt + 1 + 1 + 1) =
      ap (count_from (3 * rounds)) (omega arith) in
    let second : cnt + 2 ≡ cnt + 1 + 1 = omega arith in
    rw three (λ i. cnt ∷ (cnt + 1) ∷ second i ∷ (numbers rounds (cnt + 3) ∙ later) i)

open_stream :
    (io : Stdio)
    → ((name : Text) → io.can_open name ≡ true)
    → (c : Config)
    → (logger : Logger) × (example_logger c (open_file io file_log) ≡ some logger)
      × (logger.worker ≡ Worker.init c async_safe)
      × (logger.flushs
          ≡ to_file (record {
            filename = file_log;
            stream = some (record { name = file_log; pending = [] });
          })
            ∷ to_roll (roll_over service_log (1024 * 1024))
            ∷ [])
unfolding example_logger build build_logger_flush build_logger_name text_eq open_file fopen
open_stream io opens c = rw (opens file_log) (_, refl, refl, refl)

module _ (at : ℕ → Tm) (tid file : Text) where
  -- All the lines of the loop.
  abbrev pub lines : ℕ → Text
  lines rounds = concat (map (line_of_call at tid file) (test_from rounds 1))

  lines-nonempty : (rounds : ℕ) → 1 ≤ rounds → 1 ≤ length (lines rounds)
  unfolding test_from line_of_call format
  lines-nonempty zero some_rounds = absurd (omega arith)
  lines-nonempty (suc rounds) some_rounds = omega arith

module _ (c : Config) (io : Stdio) (opens : (name : Text) → io.can_open name ≡ true) where
  -- For the logger of the example, with a buffer_size of at most 2^63 - 1, whose worker is in a
  -- reachable state after Stop with the lines of some positive number of rounds of the loop
  -- pushed, at any times, and its consumer thread not returned: once that thread has made at most
  -- seven more steps and the callback has been called with what was delivered, FileFlush.log and
  -- its stream hold what the file held and then all the lines in order, the rolling files, opened
  -- under names of which no file holds anything, hold together the same lines in order, and the
  -- lines are numbered from 1 to three times the number of rounds; every file can be opened, and
  -- the numbers of calls and of bytes are below 2^64.
  pub test_from-both :
      (at : ℕ → Tm) (tid file : Text) (rounds : ℕ) (w : Worker) (flushes : List (Tm × Text))
      (l : Logs)
      → c.buffer_size ≤ max_size
      → Reach c async_safe w (lines at tid file rounds)
      → w.stop ≡ true
      → w.pc ≢ returned
      → map text_of flushes ≡ (drain 7 w).delivered
      → IsFresh service_log 1 l
      → 1 ≤ rounds
      → length (lines at tid file rounds) < size_mod
      → 1 + length flushes < size_mod
      → (logger : Logger) × (st' : Stream) × (r' : RollFileFlush) × (rst' : Stream) × (l' : Logs)
        × (older closed : List Text) × (cur : Text) × (example_logger c (open_file io file_log)
            ≡ some logger)
        × (logger.worker ≡ Worker.init c async_safe)
        × (real_flushes c io flushes logger.flushs l
            ≡ ok
                (to_file (record { filename = file_log; stream = some st' }) ∷ to_roll r' ∷ [], l'))
        × (total st' l' ≡ l.content file_log ++ lines at tid file rounds)
        × IsRolling (1024 * 1024) r' rst' l' older closed cur
        × (concat (closed ++ cur ∷ []) ≡ lines at tid file rounds)
        × (map number_of (test_from rounds 1) ≡ count_from (3 * rounds) 1)
  test_from-both at tid file rounds w flushes l small r stop p same fresh some_rounds short few =
      let sent : Text = lines at tid file rounds in
      let (gone, all) = drain-Finishes w sent small r stop p in
      let whole = ap concat same ∙ all in
      let (now, s, rest, split) =
        first_flush flushes sent whole (lines-nonempty at tid file rounds some_rounds) in
      let put_together = ap (λ fs. concat (map text_of fs)) (sym split) ∙ whole in
      let st : Stream = record { name = file_log; pending = [] } in
      let (logger, built, fresh_worker, flushers) = open_stream io opens c in
      let (st', r', rst', l', older, closed, cur, done, held, rolling, rolled) =
        real_flushes-both c io opens now s rest (1024 * 1024) file_log service_log st l fresh
          file_log-IsApart (omega (arith, few, ap length split))
          (omega
            (arith, short, ap length put_together, length-append s (concat (map text_of rest)))) in
      (
        logger,
        st',
        r',
        rst',
        l',
        older,
        closed,
        cur,
        built,
        fresh_worker,
        ap (λ fs. real_flushes c io fs logger.flushs l) split
            ∙ ap (λ es. real_flushes c io ((now, s) ∷ rest) es l) flushers
            ∙ done,
        held
            ∙ ap (λ x. x ++ (s ++ concat (map text_of rest))) (append-nil (l.content file_log))
            ∙ ap (λ x. l.content file_log ++ x) put_together,
        rolling,
        rolled ∙ put_together,
        numbers rounds 1,
      )
