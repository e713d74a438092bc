-- ===== src/LogSystem/Logger/Delivery.antt =====
-- logSystem/logsCode/AsyncLogger.hpp: from the messages to the bytes in a log file.
use asyn_log_system.Prelude.{
  ◌≡◌, ◌≤◌, ◌≢◌, refl, sym, ap, ◌∙◌, true, List, [], ◌∷◌, ◌++◌, concat, map, some, ok, append_assoc,
  append-nil,
}
use asyn_log_system.Prelude.Text.{Text}
use asyn_log_system.LogSystem.Config.{Config}
use asyn_log_system.LogSystem.Buffer.{max_size}
use asyn_log_system.LogSystem.Worker.{AsyncType, Worker, drain, Reach, returned}
use asyn_log_system.LogSystem.Worker.Shutdown.{drain-Finishes}
use asyn_log_system.LogSystem.Flush.{Logs, Stream, Stdio, flush_file, write_stream}
use asyn_log_system.LogSystem.Flush.Streams.{total, Wrote, write_stream-Wrote}
use asyn_log_system.LogSystem.Flush.Names.{Tm, text_of}
use asyn_log_system.LogSystem.Logger.{to_file, flush, real_flush, real_flushes}

module _ (c : Config) (io : Stdio) where
  flush_file-open :
      (s : Text) (name : Text) (st : Stream) (l : Logs)
      → flush_file c io s (record { filename = name; stream = some st }) l
        ≡ ok (
          record { filename = name; stream = some (write_stream c io s st l).0 },
          (write_stream c io s st l).1,
        )
  unfolding flush_file
  flush_file-open s name st l = refl

  -- A logger with one open file: after any number of calls of the callback, the file and its stream
  -- hold what they held, followed by all that was delivered, and no other file has changed.
  pub real_flushes-to_file :
      (flushes : List (Tm × Text)) (name : Text) (st : Stream) (l : Logs)
      → (st' : Stream) × (l' : Logs) × (real_flushes c io flushes
            (to_file (record { filename = name; stream = some st }) ∷ [])
            l
          ≡ ok (to_file (record { filename = name; stream = some st' }) ∷ [], l'))
        × Wrote (concat (map text_of flushes)) st st' l l'
  unfolding real_flushes real_flush flush
  real_flushes-to_file [] name st l =
      (st, l, refl, record { name = refl; added = sym (append-nil _); others = λ q ne. refl })
  real_flushes-to_file ((now, s) ∷ rest) name st l =
      let w = write_stream-Wrote c io s st l in
      let (st', l', e, v) =
        real_flushes-to_file rest name (write_stream c io s st l).0 (write_stream c io s st l).1 in
      (
        st',
        l',
        rw (flush_file-open s name st l, e) refl,
        record {
          name = v.name ∙ w.name;
          added =
              v.added
              ∙ ap (λ t. t ++ concat (map text_of rest)) w.added
              ∙ append_assoc (total st l) s (concat (map text_of rest));
          others = λ q ne. v.others q (λ e. ne (e ∙ w.name)) ∙ w.others q ne;
        },
      )

  -- A logger with one open file whose worker, with a buffer_size of at most 2^63 - 1, is in a
  -- reachable state after Stop and whose consumer thread has not returned: once that thread has
  -- made at most seven more steps and the callback has been called with what was delivered, the
  -- file and its stream hold what they held, followed by all the bytes that were pushed, in order.
  pub shutdown-to_file :
      {t : AsyncType} (w : Worker) (sent : Text) (flushes : List (Tm × Text)) (name : Text)
      (st : Stream) (l : Logs)
      → c.buffer_size ≤ max_size
      → Reach c t w sent
      → w.stop ≡ true
      → w.pc ≢ returned
      → map text_of flushes ≡ (drain 7 w).delivered
      → (st' : Stream) × (l' : Logs) × (real_flushes c io flushes
            (to_file (record { filename = name; stream = some st }) ∷ [])
            l
          ≡ ok (to_file (record { filename = name; stream = some st' }) ∷ [], l'))
        × (total st' l' ≡ total st l ++ sent)
  shutdown-to_file w sent flushes name st l small r stop p same =
      let (gone, all) = drain-Finishes w sent small r stop p in
      let (st', l', e, v) = real_flushes-to_file flushes name st l in
      (st', l', e, v.added ∙ ap (λ s. total st l ++ s) (ap concat same ∙ all))
