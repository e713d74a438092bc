-- ===== src/LogSystem/Logger/Levels.antt =====
-- logSystem/logsCode/AsyncLogger.hpp: the methods for the five levels. `vasprintf` is outside of the
-- model: its text is an argument, `none` where it fails and leaves the pointer without a value.
use asyn_log_system.LogSystem.ThreadPool.{Pool}
use asyn_log_system.LogSystem.Worker.{Worker, Refusal}
use asyn_log_system.Prelude.{
  err, ◌⊎◌, ok, [], ◌∷◌, ◌++◌, not, ◌&&◌, if◌then◌else◌, none, refl, true, some, Result, false, ◌≡◌,
  Bool, ℕ, Option,
}
use asyn_log_system.Prelude.Text.{Text}
use asyn_log_system.LogSystem.Flush.Names.{Tm}
use asyn_log_system.LogSystem.Worker
use asyn_log_system.LogSystem.Config.{Config}
use asyn_log_system.LogSystem.Message.{Level, debug, info, warn, error, fatal}
use asyn_log_system.LogSystem.Logger.{is_backed_up, System, Logger, serialize}
use asyn_log_system.LogSystem.Logger.Serialize.{line_of, serialize_lem}

-- Whether the method for a level backs its message up.
abbrev pub is_serious : Level → Bool
is_serious debug = false
is_serious info = false
is_serious warn = false
is_serious error = true
is_serious fatal = true

serious-is_backed_up : (level : Level) → is_backed_up level ≡ is_serious level
unfolding is_backed_up
serious-is_backed_up debug = refl
serious-is_backed_up info = refl
serious-is_backed_up warn = refl
serious-is_backed_up error = refl
serious-is_backed_up fatal = refl

module _ (c : Config) (now : Tm) (tid : Text) where
  -- The logger or what keeps it waiting, and the pool; `none` if a pointer without a value is read.
  abbrev pub Outcome : Type 0
  Outcome = Option (Result Refusal Logger × Pool Text)

  -- What every method does with the pointer.
  serialize_text : Level → Text → ℕ → Option Text → System → Outcome
  serialize_text level file line none s = none
  serialize_text level file line (some res) s = some (serialize c now tid level file line res s)

  -- `Debug(file, line, format, ...)`, and the like.
  unfoldable pub log_debug : Text → ℕ → Option Text → System → Outcome
  unfolding serialize_text
  log_debug file line res s = serialize_text debug file line res s

  unfoldable pub log_info : Text → ℕ → Option Text → System → Outcome
  unfolding serialize_text
  log_info file line res s = serialize_text info file line res s

  unfoldable pub log_warn : Text → ℕ → Option Text → System → Outcome
  unfolding serialize_text
  log_warn file line res s = serialize_text warn file line res s

  unfoldable pub log_error : Text → ℕ → Option Text → System → Outcome
  unfolding serialize_text
  log_error file line res s = serialize_text error file line res s

  unfoldable pub log_fatal : Text → ℕ → Option Text → System → Outcome
  unfolding serialize_text
  log_fatal file line res s = serialize_text fatal file line res s

  -- The method for a level.
  unfoldable pub method : Level → Text → ℕ → Option Text → System → Outcome
  method debug = log_debug
  method info = log_info
  method warn = log_warn
  method error = log_error
  method fatal = log_fatal

  -- What a call has done that made this line of its message: one push of the line, which keeps the
  -- logger's name and flushers, and a task for the backup server or none.
  abbrev pub IsLogged : Bool → Text → System → Result Refusal Logger → Pool Text → Type 0
  IsLogged backed_up message s logged pool =
      (pool.queue.tasks ≡ (
        if backed_up && not s.pool.queue.stop
        then s.pool.queue.tasks ++ message ∷ []
        else s.pool.queue.tasks))
      × (((w : Worker) × (Worker.push c message s.logger.worker ≡ ok w)
            × (logged ≡ ok (record s.logger { worker = w })))
          ⊎ ((r : Refusal) × (Worker.push c message s.logger.worker ≡ err r) × (logged ≡ err r)))

  method-serialize :
      (level : Level) (file : Text) (line : ℕ) (payload : Text) (s : System)
      → method level file line (some payload) s
        ≡ some (serialize c now tid level file line payload s)
  unfolding method log_debug log_info log_warn log_error log_fatal serialize_text
  method-serialize debug file line payload s = refl
  method-serialize info file line payload s = refl
  method-serialize warn file line payload s = refl
  method-serialize error file line payload s = refl
  method-serialize fatal file line payload s = refl

  -- If vasprintf succeeds, the method for each of the five levels makes one push of the line with
  -- that level, which keeps the logger's name and flushers; whether the push goes through or not,
  -- Error and Fatal, and no other method, queue the line for the backup server, if the pool has
  -- not been stopped.
  pub method_lem :
      (level : Level) (file : Text) (line : ℕ) (payload : Text) (s : System)
      → (logged : Result Refusal Logger) × (pool : Pool Text) × (method level file line
            (some payload)
            s
          ≡ some (logged, pool))
        × IsLogged
            (is_serious level)
            (line_of now tid level file line payload s.logger.logger_name)
            s
            logged
            pool
  method_lem level file line payload s = (
    _,
    _,
    method-serialize level file line payload s,
    rw (← serious-is_backed_up level) (serialize_lem c now tid level file line payload s),
  )
