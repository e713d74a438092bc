-- ===== src/LogSystem/Start/Delivery.antt =====
-- src/server/Test.cpp and logSystem/logsCode: what becomes of the messages for the service's logger.
use asyn_log_system.LogSystem.Flush.Files.{flush_rolls-chunks_from}
use asyn_log_system.LogSystem.Worker.Shutdown.{drain-Finishes}
use asyn_log_system.LogSystem.Flush.Rolling.{IsRolling, IsFresh}
use asyn_log_system.LogSystem.Logger.{
  Logger, build_logger_name, build_logger_flush, build, to_roll, flush, LogFlush, real_flushes,
  real_flush,
}
use asyn_log_system.LogSystem.Flush.Names.{text_of, Tm}
use asyn_log_system.LogSystem.Config.{Config}
use asyn_log_system.Prelude.Text.{text_eq, codes, Text}
use asyn_log_system.LogSystem.Buffer.{max_size}
use asyn_log_system.Prelude.{
  sym, ◌∙◌, ◌++◌, ◌*◌, some, ◌+◌, size_mod, ◌<◌, ◌≢◌, ap, arith, length, ◌≤◌, err, ok, refl, map,
  true, ◌≡◌, concat, List, Result, ◌>>=◌, [], ◌∷◌,
}
use asyn_log_system.LogSystem.Worker
use asyn_log_system.LogSystem.Worker.{async_safe, drain, Reach, Worker, returned}
use asyn_log_system.LogSystem.Flush.{
  Stream, Logs, RollFileFlush, Stdio, Fault, flush_roll, flush_rolls, roll_over,
}
use asyn_log_system.LogSystem.Start.{service_logger}

as_roll : Result Fault (RollFileFlush × Logs) → Result Fault (List LogFlush × Logs)
as_roll (err e) = err e
as_roll (ok (r, l)) = ok (to_roll r ∷ [], l)

module _ (c : Config) (io : Stdio) where
  flush_first :
      (now : Tm) (s : Text) (rest : List (Tm × Text)) (e : Result Fault (RollFileFlush × Logs))
      → ((r : RollFileFlush) (l : Logs)
          → real_flushes c io rest (to_roll r ∷ []) l ≡ as_roll (flush_rolls c io rest r l))
      → (do
        (es, l2) ← (do
          (e', l1) ← (do (r', l') ← e; ok (to_roll r', l'))
          (es', l'') ← real_flush c io now s [] l1
          ok (e' ∷ es', l''))
        real_flushes c io rest es l2)
        ≡ as_roll (do (r', l') ← e; flush_rolls c io rest r' l')
  unfolding as_roll real_flush
  flush_first now s rest (err x) same = refl
  flush_first now s rest (ok (r, l)) same = same r l

  -- A logger whose only flusher rolls over does what that flusher does.
  real_flushes-to_roll :
      (flushes : List (Tm × Text)) (r : RollFileFlush) (l : Logs)
      → real_flushes c io flushes (to_roll r ∷ []) l ≡ as_roll (flush_rolls c io flushes r l)
  unfolding real_flushes real_flush flush flush_rolls
  real_flushes-to_roll [] r l = unfold as_roll in refl
  real_flushes-to_roll ((now, s) ∷ rest) r l =
      flush_first now s rest (flush_roll c io now s r l) (real_flushes-to_roll rest)

-- Something was delivered if something was sent.
pub first_flush :
    (flushes : List (Tm × Text)) (sent : Text)
    → concat (map text_of flushes) ≡ sent
    → 1 ≤ length sent
    → (now : Tm) × (s : Text) × (rest : List (Tm × Text)) × (flushes ≡ (now, s) ∷ rest)
first_flush [] sent e some_bytes = absurd (omega (arith, ap length e))
first_flush ((now, s) ∷ rest) sent e some_bytes = (now, s, rest, refl)

abbrev pub service_log : Text
service_log = codes "./logfile/RollFile_log"

module _ (c : Config) (io : Stdio) (opens : (name : Text) → io.can_open name ≡ true) where
  -- The logger that the start builds for the service, with a buffer_size of at most 2^63 - 1,
  -- whose worker is in a reachable state after Stop with some bytes pushed and its consumer thread
  -- not returned: once that thread has made at most seven more steps and the callback has been
  -- called with what was delivered, each time at any local time, the rolling log files, opened
  -- under names of which no file holds anything, hold all the bytes that were pushed, in order,
  -- each file but the last at least 1 MiB; every file can be opened, and the numbers of calls and
  -- of bytes are below 2^64.
  pub service_logger-to_roll :
      (w : Worker) (sent : Text) (flushes : List (Tm × Text)) (l : Logs)
      → c.buffer_size ≤ max_size
      → Reach c async_safe w sent
      → w.stop ≡ true
      → w.pc ≢ returned
      → map text_of flushes ≡ (drain 7 w).delivered
      → IsFresh service_log 1 l
      → 1 ≤ length sent
      → length sent < size_mod
      → 1 + length flushes < size_mod
      → (logger : Logger) × (r' : RollFileFlush) × (st' : Stream) × (l' : Logs) × (older
          closed : List Text)
        × (open_one : Text) × (service_logger c ≡ some logger)
        × (logger.worker ≡ Worker.init c async_safe)
        × (real_flushes c io flushes logger.flushs l ≡ ok (to_roll r' ∷ [], l'))
        × IsRolling (1024 * 1024) r' st' l' older closed open_one
        × (concat (closed ++ open_one ∷ []) ≡ sent)
  unfolding service_logger build build_logger_flush build_logger_name text_eq as_roll
  service_logger-to_roll w sent flushes l small r stop p same fresh some_bytes short few =
      let (gone, all) = drain-Finishes w sent small r stop p in
      let whole = ap concat same ∙ all in
      let (now, s, rest, split) = first_flush flushes sent whole some_bytes in
      let put_together = ap (λ fs. concat (map text_of fs)) (sym split) ∙ whole in
      let (r', st', l', older, closed, open_one, rolled, rolling, cut, held) =
        flush_rolls-chunks_from io opens c now s rest service_log (1024 * 1024) l fresh
          (omega (arith, few, ap length split)) (omega (arith, short, ap length put_together)) in
      (
        _,
        r',
        st',
        l',
        older,
        closed,
        open_one,
        refl,
        refl,
        real_flushes-to_roll c io flushes (roll_over service_log (1024 * 1024)) l
            ∙ ap (λ fs. as_roll (flush_rolls c io fs (roll_over service_log (1024 * 1024)) l)) split
            ∙ ap as_roll rolled,
        rolling,
        held ∙ put_together,
      )
