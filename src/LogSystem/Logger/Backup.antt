-- ===== src/LogSystem/Logger/Backup.antt =====
-- logSystem/logsCode/AsyncLogger.hpp and logSystem/backlog: the way of a serious message from the
-- logger over the thread pool and the socket to the file of the backup server.
use asyn_log_system.LogSystem.ThreadPool.{Pool}
use asyn_log_system.LogSystem.Worker.{Refusal}
use asyn_log_system.LogSystem.Message.{Level}
use asyn_log_system.Prelude.Text.{Text}
use asyn_log_system.LogSystem.Flush.Names.{Tm}
use asyn_log_system.Prelude.{
  err, ◌↔◌, refl, inl, inr, Option, Result-cases, arith, not, ◌&&◌, if◌then◌else◌, List, append-nil,
  ok, [], ◌∷◌, Result, ◌≤◌, ap, ◌++◌, length, ◌∙◌, false, ◌+◌, true, some, ◌≡◌, Bool, ℕ,
}
use asyn_log_system.LogSystem.Logger.Levels.{method, method_lem, is_serious}
use asyn_log_system.LogSystem.Logger.Serialize.{line_of}
use asyn_log_system.LogSystem.Logger.{System, Logger}
use asyn_log_system.LogSystem.Backlog.{
  LogFile, start_backup, serve_all, client_info, service, out_of_bounds,
}
use asyn_log_system.LogSystem.Backlog.Connect.{first_success, sent, start_backup_lem}
use asyn_log_system.LogSystem.Backlog.Store.{IsShort, serve_all-stored, service-out_of_bounds}
use asyn_log_system.LogSystem.Config.{Config}

queued_task :
    (serious stop : Bool) (tasks old : List Text) (message : Text)
    → tasks ≡ (if serious && not stop then old ++ message ∷ [] else old)
    → serious ≡ true
    → stop ≡ false
    → tasks ≡ old ++ message ∷ []
queued_task serious stop tasks old message e yes_ no_ = ground arith

-- The task sends the whole message, once a connection is there.
start_backup-some :
    (connects : ℕ → Bool) (message : Text) (k : ℕ)
    → first_success connects 5 0 ≡ some k
    → start_backup connects (λ m. some m) message ≡ (some message, k + 1)
unfolding sent
start_backup-some connects message k e =
    start_backup_lem connects (λ m. some m) message ∙ ap (sent (some message)) e

-- If vasprintf succeeds, the pool has not been stopped, one of the five attempts to connect
-- succeeds, the line is shorter than 1024 bytes and holds no 0 byte, goes through the socket
-- whole, and the server's log file can be opened and has room, then the methods Error and Fatal
-- queue one task, and the thread of the server that reads what the task sends appends the client's
-- address and port and the line.
pub method-serve_all :
    (c : Config) (now : Tm) (tid : Text) (level : Level) (file : Text) (line : ℕ) (payload : Text)
    (s : System) (connects : ℕ → Bool) (k : ℕ) (ip : Text) (port : ℕ) (f : LogFile)
    → let message = line_of now tid level file line payload s.logger.logger_name in
      is_serious level ≡ true
      → s.pool.queue.stop ≡ false
      → first_success connects 5 0 ≡ some k
      → IsShort message
      → f.opens ≡ true
      → length (client_info ip port ++ message) ≤ f.room
      → (logged : Result Refusal Logger) × (pool : Pool Text) × (f' : LogFile) × (method c now tid
            level file line
            (some payload)
            s
          ≡ some (logged, pool))
        × (pool.queue.tasks ≡ s.pool.queue.tasks ++ message ∷ [])
        × (serve_all ((ip, port, (start_backup connects (λ m. some m) message).0) ∷ []) f ≡ ok f')
        × (f'.content ≡ f.content ++ (client_info ip port ++ message))
method-serve_all c now tid level file line payload s connects k ip port f serious on up short opens
      room =
    let message : Text = line_of now tid level file line payload s.logger.logger_name in
    let (logged, pool, called, (queued, pushed)) = method_lem c now tid level file line payload s in
    let (f', served, stored) =
      serve_all-stored ((ip, port, message) ∷ []) f (short, tt) opens
        (rw (append-nil (client_info ip port ++ message)) room) in
    (
      logged,
      pool,
      f',
      called,
      queued_task _ _ _ _ message queued serious on,
      rw (start_backup-some connects message k up) served,
      stored ∙ ap (λ x. f.content ++ x) (append-nil (client_info ip port ++ message)),
    )

-- The only connection of a server is served as its thread serves it.
serve_one :
    (ip : Text) (port : ℕ) (got : Option Text) (f : LogFile)
    → serve_all ((ip, port, got) ∷ []) f ≡ service got (client_info ip port) f
unfolding serve_all
serve_one ip port got f = elim (Result-cases (service got (client_info ip port) f)) [
  | inl (e, at) ↦ rw at refl
  | inr (f', at) ↦ rw at refl
]

-- If vasprintf succeeds, the pool has not been stopped, one of the five attempts to connect
-- succeeds, and the line goes through the socket whole, then the methods Error and Fatal queue one
-- task, and the thread of the backup server that reads what the task sends writes behind its array
-- exactly if the line has 1024 bytes or more.
pub method-out_of_bounds :
    (c : Config) (now : Tm) (tid : Text) (level : Level) (file : Text) (line : ℕ) (payload : Text)
    (s : System) (connects : ℕ → Bool) (k : ℕ) (ip : Text) (port : ℕ) (f : LogFile)
    → let message = line_of now tid level file line payload s.logger.logger_name in
      is_serious level ≡ true
      → s.pool.queue.stop ≡ false
      → first_success connects 5 0 ≡ some k
      → (logged : Result Refusal Logger) × (pool : Pool Text) × (method c now tid level file line
            (some payload)
            s
          ≡ some (logged, pool))
        × (pool.queue.tasks ≡ s.pool.queue.tasks ++ message ∷ [])
        × ((serve_all ((ip, port, (start_backup connects (λ m. some m) message).0) ∷ []) f
              ≡ err out_of_bounds)
            ↔ (1024 ≤ length message))
method-out_of_bounds c now tid level file line payload s connects k ip port f serious on up =
    let message : Text = line_of now tid level file line payload s.logger.logger_name in
    let (logged, pool, called, (queued, pushed)) = method_lem c now tid level file line payload s in
    (
      logged,
      pool,
      called,
      queued_task _ _ _ _ message queued serious on,
      rw (start_backup-some connects message k up, serve_one ip port (some message) f)
          (service-out_of_bounds message (client_info ip port) f),
    )
