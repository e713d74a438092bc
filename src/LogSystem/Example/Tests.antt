-- ===== src/LogSystem/Example/Tests.antt =====
-- One round of the loop of src/examples/test.cpp.
use asyn_log_system.LogSystem.MyLog
use asyn_log_system.LogSystem.Sample.{
  settings, with_settings, settings_text, file_system, settings-Configures,
}
use asyn_log_system.Json.Sample.{json}
use asyn_log_system.LogSystem.Start.{Started}
use asyn_log_system.LogSystem.Example.{example_start}
use asyn_log_system.LogSystem.Example.Whole.{example_start-both, AreWritten}
use asyn_log_system.LogSystem.Worker.Turns.{IsLost, stop_after}
use asyn_log_system.LogSystem.Worker.Pushing.{Turn, take_turns}
use asyn_log_system.LogSystem.Worker.Wait.{Live, live, moves}
use asyn_log_system.Prelude.{◌⊎◌}
use asyn_log_system.LogSystem.Message.{info, warn, debug}
use asyn_log_system.Prelude.Decimal.{decimal}
use asyn_log_system.LogSystem.Message.{to_string, format}
use asyn_log_system.LogSystem.Example.Files.{lines}
use asyn_log_system.Prelude.Text.{codes, Text}
use asyn_log_system.LogSystem.Flush.Names.{Tm}
use asyn_log_system.Prelude.{map, ok, ◌∷◌, some, List, refl, arith, [], ◌≡◌, true}
use asyn_log_system.LogSystem.Flush.{Logs, Stdio}
use asyn_log_system.LogSystem.Example.{number_of, line_of_call, test_from}
use asyn_log_system.LogSystem.Logger.{Logger}

abbrev morning : Tm
morning = record { year = 125; mon = 0; mday = 31; hour = 8; min = 0; sec = 0 }

abbrev round : Text
round = lines (λ k. morning) (codes "1") (codes "test.cpp") 1

abbrev io : Stdio
io = record { can_open = λ name. true; passes = λ n. 0 }

abbrev no_logs : Logs
no_logs = record { content = λ q. []; synced = λ q. [] }

-- The calls of one round, with steps of the consumer between them.
abbrev turns : List Turn
turns =
    (0, line_of_call (λ k. morning) (codes "1") (codes "test.cpp") (info, 16, 1))
    ∷ (1, line_of_call (λ k. morning) (codes "1") (codes "test.cpp") (warn, 17, 2))
    ∷ (5, line_of_call (λ k. morning) (codes "1") (codes "test.cpp") (debug, 18, 3))
    ∷ []

example_start-both_example :
    (log : Started) × (s' : List Text) × (logger : Logger) × (v : Live) × (example_start json
        (file_system true settings_text)
        (λ s. io)
        with_settings
      ≡ ok (some log, s'))
    × (MyLog.get_logger (codes "asynclogger") log.manager ≡ some logger)
    × (take_turns settings turns (live logger.worker) ≡ ok v)
    × (IsLost 2 1 v
        ⊎ AreWritten settings io
            (λ i. morning)
            logger
            (moves 7 (stop_after 2 1 v)).worker
            no_logs
            round)
    × (map number_of (test_from 1 1) ≡ 1 ∷ 2 ∷ 3 ∷ [])
unfolding test_from line_of_call format to_string decimal
example_start-both_example =
    example_start-both json (file_system true settings_text) (λ s. io) (λ s name. refl)
      with_settings settings (λ k. morning) (codes "1") (codes "test.cpp") 1 turns 2 1
      (λ i. morning) no_logs settings-Configures refl (omega arith)
      (omega arith, (omega arith, (omega arith, tt))) (λ t k le. refl) (omega arith) (omega arith)
