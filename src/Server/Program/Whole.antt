-- ===== src/Server/Program/Whole.antt =====
-- src/server/Test.cpp: what the whole program does, from its settings files to the replies.
use asyn_log_system.Server.Store.Coheres.{Coheres}
use asyn_log_system.Prelude.Table.{Table}
use asyn_log_system.Server.Program.{Logged, turns_of}
use asyn_log_system.Server.Service.{Request}
use asyn_log_system.Server.Runs.{Event, request}
use asyn_log_system.Server.Config.{Config}
use asyn_log_system.Prelude.{ok, [], ◌∷◌, ◌≡◌, List}
use asyn_log_system.Prelude.Text.{Text}
use asyn_log_system.Json.{Json}
use asyn_log_system.LogSystem.Start.Ready.{LogConfig}
use asyn_log_system.LogSystem.Worker
use asyn_log_system.LogSystem.Worker.{async_safe}
use asyn_log_system.LogSystem.Worker.Wait.{Live, live}
use asyn_log_system.LogSystem.Worker.Pushing.{take_turns}
use asyn_log_system.Prelude.{◌>>=◌}
use asyn_log_system.Server.Disk.{Disk}

-- Requests alone, as events.
abbrev pub requests_of : List Request → List Event
requests_of [] = []
requests_of (req ∷ reqs) = request req ∷ requests_of reqs

-- Every line that the program logs is pushed, and the logger is as after these pushes.
abbrev pub IsPushed : LogConfig → Logged → Live → Type 0
IsPushed lc g l = take_turns lc (turns_of g) (live (Worker.init lc async_safe)) ≡ ok l
