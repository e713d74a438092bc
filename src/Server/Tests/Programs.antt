-- ===== src/Server/Tests/Programs.antt =====
-- The theorem on the whole program, started for the first time with both settings files.
use asyn_log_system.Server.Store.Coheres.{Coheres}
use asyn_log_system.Prelude.Table.{Table}
use asyn_log_system.Prelude.Text.{codes, Text}
use asyn_log_system.Prelude.{◌∷◌, ◌==◌, [], true, List}
use asyn_log_system.Server.Program.{LibEvent}
use asyn_log_system.Server.Store.{low, Call, Answer}
use asyn_log_system.Server.Tests.Transfers.{put, get}
use asyn_log_system.LogSystem.Logger.Serialize.{line_of}
use asyn_log_system.LogSystem.Message.{debug}
use asyn_log_system.LogSystem.Flush.Names.{Tm}
use asyn_log_system.Server.Program.{Logged}

abbrev libevent : LibEvent
libevent = record {
  base_made = true;
  http_made = true;
  binds = λ address port. port == 8081;
  dispatched = put "low" ∷ get "/download/low_storage/a.txt" ∷ get "/favicon.ico" ∷ [];
}

-- A minute of the runs.
abbrev morning : Tm
morning = record { year = 125; mon = 0; mday = 31; hour = 8; min = 0; sec = 0 }

-- The first line and the next one, with some steps of the consumer before each.
abbrev logged : Logged
logged = record {
  now = morning;
  tid = codes "1";
  file = codes "DataManager.hpp";
  steps = 1;
  others =
      (
        4,
        line_of morning (codes "1") debug (codes "DataManager.hpp") 56 (codes "init datamanager")
            (codes "asynclogger"),
      )
      ∷ [];
}

abbrev calls : List Call
calls =
    Call.put low (codes "a.txt") (codes "hi!") ∷ Call.get low (codes "a.txt") ∷ Call.unknown ∷ []

abbrev given : List Answer
given = (200, []) ∷ (200, codes "hi!") ∷ (404, []) ∷ []
