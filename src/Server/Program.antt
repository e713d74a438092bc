-- ===== src/Server/Program.antt =====
-- src/server/Service.hpp and Test.cpp: the service's object, its event loop, and the program around
-- them. The loop is outside of the model: the requests that it gives to the callback until it
-- returns are a parameter, and whether its end was an error makes a difference to the log only. So
-- are the lines that are logged, but for the first one; a line that a Push cannot take stops the
-- program.
pub mod Whole
use asyn_log_system.Server.Handler.{gen_handler}
use asyn_log_system.Server.DataManager.{construct}
use asyn_log_system.Server.Store.{handle_all}
use asyn_log_system.Server.Service.{Request, Session}
use asyn_log_system.Server.DataManager.RwLock.{null_server, Fault}
use asyn_log_system.Prelude.Text.{codes, Text}
use asyn_log_system.Json.{Json}
use asyn_log_system.Prelude.{
  true, ◌>>=◌, [], ◌∷◌, false, if◌then◌else◌, none, ok, some, ◌^◌, List, ◌%◌, err, Option, Bool, ℕ,
  Result,
}
use asyn_log_system.Server.Config.{read_config, Config}
use asyn_log_system.LogSystem.Config.{NotConvertible}
use asyn_log_system.LogSystem.Start.{Started, log_system_module_init}
use asyn_log_system.LogSystem.Util.{FileSystem}
use asyn_log_system.LogSystem.MyLog
use asyn_log_system.LogSystem.Worker.{Refusal}
use asyn_log_system.LogSystem.Worker.Wait.{Live, live}
use asyn_log_system.LogSystem.Worker.Pushing.{Turn, take_turns}
use asyn_log_system.LogSystem.Logger.Serialize.{line_of}
use asyn_log_system.LogSystem.Message.{debug}
use asyn_log_system.LogSystem.Flush.Names.{Tm}
use asyn_log_system.Server.Disk.{Host, Bundle, Disk}

-- What libevent gives: a new base, a new HTTP server, whether an address and a port can be bound,
-- and the requests of the loop.
pub record LibEvent : Type 0 where
  pub base_made : Bool
  pub http_made : Bool
  pub binds : Text → ℕ → Bool
  pub dispatched : List Request

-- What `RunModule` gets from libevent and gives back.
pub data Resource : Type 0 where
  event_base evhttp : Resource

pub data Action : Type 0 where
  makes frees : Resource → Action

-- `storage::Service`.
pub record Service : Type 0 where
  pub server_port : ℕ
  pub server_ip : Text
  pub download_prefix : Text

-- `Service()`; the port is a `uint16_t`.
unfoldable pub new_service : Config → Service
new_service c = record {
  server_port = c.server_port % 2 ^ 16;
  server_ip = c.server_ip;
  download_prefix = c.download_prefix;
}

-- The result of `RunModule`, what it did with libevent's objects, and the service behind it.
pub record Ran : Type 0 where
  pub result : Bool
  pub actions : List Action
  pub session : Session

module _ (j : Json) (b : Bundle) (base64_decode : Text → Option Text) (h : Host) (c : Config)
    (strerror : Text) (junk : ℕ) (ctime : ℕ → Text) (lib : LibEvent) where
  -- `event_base_dispatch` with the callback that was set, and what follows it.
  unfoldable pub serve : Session → Result Fault Ran
  serve s = do
    s' ← handle_all (gen_handler j b base64_decode h c strerror junk ctime) lib.dispatched s
    ok (record {
      result = true;
      actions = makes event_base ∷ makes evhttp ∷ frees event_base ∷ frees evhttp ∷ [];
      session = s';
    })

  -- `RunModule()`.
  unfoldable pub run_module : Service → Session → Result Fault Ran
  run_module service s =
      if lib.base_made
      then if lib.http_made
        then if lib.binds (codes "0.0.0.0") service.server_port
          then serve s
          else ok (record {
            result = false;
            actions = makes event_base ∷ makes evhttp ∷ [];
            session = s;
          })
        else err null_server
      else ok (record { result = false; actions = []; session = s })

  -- `service_module()`. The result of `RunModule` is not used there.
  unfoldable pub service_module : Session → Result Fault Ran
  service_module s = run_module (new_service c) s

-- Why the program stops early.
pub data Stop : Type 0 where
  log_settings : NotConvertible → Stop
  log_assertion null_logger : Stop
  log_refused : Refusal → Stop
  service_fault : Fault → Stop

-- What is there when `main` has joined the service's thread.
pub record Ending (fs : FileSystem) : Type 0 where
  pub log : Started
  pub log_files : fs.State
  pub logger : Live
  pub ran : Ran

or_stop {ℓ} : {E : Type 0} {A : Type ℓ} → (E → Stop) → Result E A → Result Stop A
or_stop why (err e) = err (why e)
or_stop why (ok a) = ok a

or_none {ℓ} : {A : Type ℓ} → Stop → Option A → Result Stop A
or_none why none = err why
or_none why (some a) = ok a

-- The first line that the program logs, in the constructor of `DataManager`.
unfoldable pub first_line : Tm → Text → Text → Text
first_line now tid file =
    line_of now tid debug file 44 (codes "DataManager construct start") (codes "asynclogger")

-- The lines that the program logs, each with the steps that the consumer's thread of the logger
-- makes before it: the first one, and the others, whose texts are a parameter.
pub record Logged : Type 0 where
  pub now : Tm
  pub tid : Text
  pub file : Text
  pub steps : ℕ
  pub others : List Turn

unfoldable pub turns_of : Logged → List Turn
turns_of g = (g.steps, first_line g.now g.tid g.file) ∷ g.others

module _ (j : Json) (fs : FileSystem) (b : Bundle) (base64_decode : Text → Option Text) (h : Host)
    (strerror : Text) (junk : ℕ) (ctime : ℕ → Text) (lib : LibEvent) (g : Logged) where
  -- `main()`: the logging system is started, the constructor of the manager logs its first line,
  -- the first use of the settings reads them, the table is loaded, and the thread of the service is
  -- joined. Only one thread logs at a time, and no line makes a difference to what is done
  -- between the lines, so that the pushes of all of them stand here together. What follows is the
  -- destructor of the pool.
  unfoldable pub main : fs.State → Disk → Result Stop (Ending fs)
  unfolding or_stop or_none
  main s d = do
    (started, s') ← or_stop log_settings (log_system_module_init j fs s)
    log ← or_none log_assertion started
    logger ← or_none null_logger (MyLog.get_logger (codes "asynclogger") log.manager)
    live_logger ← or_stop log_refused (take_turns log.config (turns_of g) (live logger.worker))
    (done, c) ← or_stop service_fault (read_config j h junk d)
    w ← or_stop service_fault (construct j h c d)
    ran ← or_stop service_fault (
        service_module j b base64_decode h c strerror junk ctime lib
          (record { world = w; replies = [] }))
    ok (record { log = log; log_files = s'; logger = live_logger; ran = ran })
