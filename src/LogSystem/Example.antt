-- ===== src/LogSystem/Example.antt =====
-- src/examples/test.cpp: a program that logs in a loop, to a log file and to rolling ones.
pub mod Files
pub mod Whole
mod Tests
use asyn_log_system.LogSystem.Flush.Create.{new_roll_file_flush, new_file_flush}
use asyn_log_system.LogSystem.Util.{FileSystem}
use asyn_log_system.Json.{Json}
use asyn_log_system.Prelude.Decimal.{decimal}
use asyn_log_system.LogSystem.Logger.Serialize.{line_of}
use asyn_log_system.LogSystem.Flush.Names.{Tm}
use asyn_log_system.LogSystem.Flush.{Stdio, roll_over, FileFlush}
use asyn_log_system.LogSystem.Config.{Config}
use asyn_log_system.Prelude.{ok, Result, ◌>>=◌, ◌*◌, zero, ◌+◌, ◌∷◌, ◌++◌, Option, suc, [], ℕ, List}
use asyn_log_system.LogSystem.Message.{debug, warn, info, Level}
use asyn_log_system.Prelude.Text.{codes, utf8, Text}
use asyn_log_system.LogSystem.Config.{Config, NotConvertible, read_config}
use asyn_log_system.LogSystem.Start.{Started, started, manage, default_logger}
use asyn_log_system.LogSystem.Worker
use asyn_log_system.LogSystem.Worker.{Worker, Reach, drain, returned, async_safe}
use asyn_log_system.LogSystem.Logger.{
  Logger, build, build_logger_name, build_logger_flush, builder, to_file, to_roll, real_flushes,
}

-- A call of the loop: the level, the line of the source and the number of the message.
abbrev pub Call : Type 0
Call = Level × ℕ × ℕ

-- The loop of `test()` with so many rounds left, and `cnt`.
unfoldable pub test_from : ℕ → ℕ → List Call
test_from zero cnt = []
test_from (suc rounds) cnt =
    (info, 16, cnt) ∷ (warn, 17, cnt + 1) ∷ (debug, 18, cnt + 2) ∷ test_from rounds (cnt + 3)

-- `test()` with 500000 rounds.
unfoldable pub test : List Call
test = test_from 500000 1

-- The line of a call, on the thread `tid` of a program whose file name is `file`.
unfoldable pub line_of_call : (ℕ → Tm) → Text → Text → Call → Text
line_of_call at tid file (level, line, cnt) =
    line_of (at cnt) tid level file line (utf8 "测试日志-" ++ decimal cnt) (codes "asynclogger")

-- The logger of `main()`.
unfoldable pub example_logger : Config → FileFlush → Option Logger
example_logger c f = build c (
    build_logger_flush (to_roll (roll_over (codes "./logfile/RollFile_log") (1024 * 1024)))
      (build_logger_flush (to_file f) (build_logger_name (codes "asynclogger") builder)))

module _ (j : Json) (fs : FileSystem) (stdio : fs.State → Stdio) where
  -- `main()` up to the call of `test()`; behind it the pool is deleted.
  unfoldable pub example_start : fs.State → Result NotConvertible (Option Started × fs.State)
  example_start s = do
    c ← read_config j fs s
    let (f, s1) = new_file_flush fs stdio (codes "./logfile/FileFlush.log") s
    let (r, s2) = new_roll_file_flush fs stdio (codes "./logfile/RollFile_log") (1024 * 1024) s1
    ok (started c (manage (default_logger c) (example_logger c f)), s2)

abbrev pub number_of : Call → ℕ
number_of (level, line, cnt) = cnt

abbrev pub count_from : ℕ → ℕ → List ℕ
count_from zero k = []
count_from (suc n) k = k ∷ count_from n (k + 1)
