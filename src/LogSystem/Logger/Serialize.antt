-- ===== src/LogSystem/Logger/Serialize.antt =====
-- logSystem/logsCode/AsyncLogger.hpp, `serialize`: what one message does to the worker and to the
-- thread pool.
use asyn_log_system.Prelude.{
  ℕ, ◌≡◌, refl, ◌⊎◌, inl, inr, not, ◌&&◌, [], ◌∷◌, ◌++◌, if◌then◌else◌, ok, err, Bool-cases,
  Result-cases,
}
use asyn_log_system.Prelude.Text.{Text}
use asyn_log_system.LogSystem.Config.{Config}
use asyn_log_system.LogSystem.ThreadPool.{Pool, enqueue}
use asyn_log_system.LogSystem.Worker
use asyn_log_system.LogSystem.Worker.{Worker, Refusal, Step, pushes}
use asyn_log_system.LogSystem.Flush.Names.{Tm}
use asyn_log_system.LogSystem.Message.{Level, format}
use asyn_log_system.LogSystem.Logger.{System, is_backed_up, try_enqueue, serialize}

-- The line that a call makes.
abbrev pub line_of : Tm → Text → Level → Text → ℕ → Text → Text → Text
line_of now tid level file line payload name = format (record {
  line = line;
  ctime = now;
  filename = file;
  name = name;
  payload = payload;
  tid = tid;
  level = level;
})

try_enqueue-tasks :
    (t : Text) (p : Pool Text)
    → (try_enqueue t p).queue.tasks
      ≡ (if p.queue.stop then p.queue.tasks else p.queue.tasks ++ t ∷ [])
unfolding try_enqueue enqueue
try_enqueue-tasks t p = elim (Bool-cases p.queue.stop) [
  | inl over ↦ rw over refl
  | inr on ↦ rw on refl
]

-- A call of serialize that comes to its end is one push of the formatted line, which keeps the
-- logger's name and flushers; whether it ends or not, the line is queued for the backup server
-- exactly if the level is ERROR or FATAL and the pool has not been stopped.
pub serialize_lem :
    (c : Config) (now : Tm) (tid : Text) (level : Level) (file : Text) (line : ℕ) (payload : Text)
    (s : System)
    → let message = line_of now tid level file line payload s.logger.logger_name in
      let (logged, pool) = serialize c now tid level file line payload s in
      (pool.queue.tasks ≡ (
        if is_backed_up level && not s.pool.queue.stop
        then s.pool.queue.tasks ++ message ∷ []
        else s.pool.queue.tasks))
      × (((w : Worker) × (Worker.push c message s.logger.worker ≡ ok w)
            × (logged ≡ ok (record s.logger { worker = w })))
          ⊎ ((r : Refusal) × (Worker.push c message s.logger.worker ≡ err r) × (logged ≡ err r)))
unfolding serialize
serialize_lem c now tid level file line payload s =
    let message : Text = line_of now tid level file line payload s.logger.logger_name in
    (
      elim (Bool-cases (is_backed_up level)) [
        | inr low ↦ rw low refl
        | inl high ↦ elim (Bool-cases s.pool.queue.stop) [
          | inl over ↦ rw (high, try_enqueue-tasks message s.pool, over) refl
          | inr on ↦ rw (high, try_enqueue-tasks message s.pool, on) refl
        ]
      ],
      elim (Result-cases (Worker.push c message s.logger.worker)) [
        | inr (r, e) ↦ inr (r, e, rw e refl)
        | inl (w, e) ↦ inl (w, e, rw e refl)
      ],
    )
