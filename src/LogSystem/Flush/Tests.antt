-- ===== src/LogSystem/Flush/Tests.antt =====
-- Rolling files at concrete values: a log that is written in lines of two bytes, three to a file.
use asyn_log_system.Prelude.{concat, ◌++◌, ℕ, ◌≡◌, refl, inr, true, List, [], ◌∷◌, ok, arith}
use asyn_log_system.Prelude.Text.{Text, codes}
use asyn_log_system.Prelude.Decimal.{decimal}
use asyn_log_system.LogSystem.Config.{Config}
use asyn_log_system.LogSystem.Flush.{
  Logs, Stream, Stdio, RollFileFlush, roll_over, flush_rolls, write_stream,
}
use asyn_log_system.LogSystem.Flush.Names.{Tm, create_filename}
use asyn_log_system.LogSystem.Flush.Streams.{write_stream-flushed}
use asyn_log_system.LogSystem.Flush.Rolling.{IsRolling}
use asyn_log_system.LogSystem.Flush.Chunks.{chunks_from}
use asyn_log_system.LogSystem.Flush.Files.{flush_rolls-chunks_from}

-- config.conf, with some level of flushing.
abbrev config : ℕ → Config
config level = record {
  buffer_size = 10000000;
  threshold = 10000000000;
  linear_growth = 10000000;
  flush_log = level;
  backup_addr = codes "127.0.0.1";
  backup_port = 8080;
  thread_count = 3;
}

abbrev io : Stdio
io = record { can_open = λ name. true; passes = λ n. 0 }

abbrev no_logs : Logs
no_logs = record { content = λ q. []; synced = λ q. [] }

abbrev noon : ℕ → Tm
noon sec = record { year = 125; mon = 0; mday = 31; hour = 12; min = 0; sec = sec }

january : create_filename (codes "log") (noon 7) 1 ≡ codes "log20251311207-1.log"
unfolding create_filename decimal
january = refl

abbrev stream : Stream
stream = record { name = codes "app.log"; pending = codes "a" }

write_stream-flushed_example :
    let (st', l') = write_stream (config 2) io (codes "b") stream no_logs in
    (l'.content (codes "app.log") ≡ codes "ab")
    × (st'.pending ≡ [])
    × (l'.synced (codes "app.log") ≡ codes "ab")
write_stream-flushed_example =
    write_stream-flushed (config 2) io (codes "b") stream no_logs (inr refl)

flush_rolls-chunks_from_example :
    (r' : RollFileFlush) × (st' : Stream) × (l' : Logs) × (older closed : List Text)
    × (open_one : Text) × (flush_rolls
          (config 1)
          io
          ((noon 7, codes "ab") ∷ (noon 8, codes "cd") ∷ (noon 8, codes "ef") ∷ [])
          (roll_over (codes "log") 3)
          no_logs
        ≡ ok (r', l'))
    × IsRolling 3 r' st' l' older closed open_one
    × (closed ++ open_one ∷ [] ≡ codes "abcd" ∷ codes "ef" ∷ [])
    × (concat (closed ++ open_one ∷ []) ≡ codes "abcdef")
unfolding chunks_from
flush_rolls-chunks_from_example =
    flush_rolls-chunks_from io (λ name. refl) (config 1) (noon 7) (codes "ab")
      ((noon 8, codes "cd") ∷ (noon 8, codes "ef") ∷ []) (codes "log") 3 no_logs (λ t k le. refl)
      (omega arith) (omega arith)
