-- ===== src/LogSystem/Backlog/Tests.antt =====
-- The backup of messages at concrete values.
use asyn_log_system.LogSystem.Backlog.Listening.{init_service_lem, main-stored}
use asyn_log_system.LogSystem.Backlog.Listen.{bound, new_server, init_service, main, Network}
use asyn_log_system.Prelude.{
  false, none, Option, ◌≡◌, ◌↔◌, refl, true, List, [], ◌∷◌, map, some, ◌==◌, ok, arith,
}
use asyn_log_system.Prelude.Text.{codes, c_str}
use asyn_log_system.Prelude.Decimal.{decimal}
use mathlib.Core.List.{Permᴰ}
use asyn_log_system.LogSystem.Backlog.{start_service, LogFile, client_info, serve_all}
use asyn_log_system.LogSystem.Backlog.Store.{Sent, received}

abbrev log_file : LogFile
log_file = record { content = codes "old "; opens = true; room = 100 }

abbrev two_messages : List Sent
two_messages = (codes "a", 1, codes "no") ∷ (codes "b", 20, codes "yes") ∷ []

-- The second `accept` fails, and the last thread gets the lock first.
abbrev accepts : List (Option Sent)
accepts = some (codes "b", 20, codes "yes") ∷ none ∷ some (codes "a", 1, codes "no") ∷ []

abbrev network : Network Sent
network = record {
  creates = true;
  binds = λ p. p == 8080;
  listens = true;
  accepts = λ sock. accepts;
}

-- A port that is in use.
init_service_lem_example :
    let (t, printed) = init_service network (new_server 80) in
    (t.listening ≡ true)
    × ((t.listen_sock ≡ bound 80) ↔ (false ≡ true))
    × ((printed ≡ []) ↔ (false ≡ true))
init_service_lem_example = init_service_lem network 80

main-stored_example :
    (started : List Sent) × (f' : LogFile) × (main network 0 (codes "server" ∷ codes "8080" ∷ [])
      ≡ ok started)
    × (started ≡ start_service accepts)
    × (serve_all (map received two_messages) log_file ≡ ok f')
    × (f'.content ≡ codes "old a:1nob:20yes")
unfolding client_info decimal c_str start_service
main-stored_example =
    main-stored network 0 8080 (codes "server") two_messages log_file (omega arith) refl refl refl
      (Permᴰ.swap refl refl)
      (
        record { some_bytes = λ e. omega arith; fits = omega arith; plain = refl },
        (record { some_bytes = λ e. omega arith; fits = omega arith; plain = refl }, tt),
      )
      refl (omega arith)
