-- ===== src/Server/Handler.antt =====
-- src/server/Service.hpp: the callback of every HTTP request. Its log line is not part of the model.
use asyn_log_system.Prelude.{ℕ, Option, some, if◌then◌else◌, Result, ok, ◌>>=◌}
use asyn_log_system.Prelude.Text.{Text, codes, text_eq, contains}
use asyn_log_system.Server.Config.{Config}
use asyn_log_system.Json.{Json}
use asyn_log_system.Server.Disk.{Host, Bundle}
use asyn_log_system.Server.DataManager.RwLock.{Fault}
use asyn_log_system.Server.Url.{url_decode}
use asyn_log_system.Server.Service.{Request, Session, send, upload, download}
use asyn_log_system.Server.Listing.{list_show}

module _ (j : Json) (b : Bundle) (base64_decode : Text → Option Text) (h : Host) (c : Config)
    (strerror : Text) (junk : ℕ) (ctime : ℕ → Text) where
  -- `GenHandler` for a decoded path.
  unfoldable pub route : Text → Request → Session → Result Fault Session
  route path req s =
      if contains (codes "/download/") path
      then download j b base64_decode h c strerror junk req s
      else if text_eq path (codes "/upload")
      then upload j b base64_decode h c strerror junk req s
      else if text_eq path (codes "/")
      then list_show ctime h c s
      else ok (send 404 (some (codes "Not Found")) s)

  -- `GenHandler(req, arg)`.
  unfoldable pub gen_handler : Request → Session → Result Fault Session
  gen_handler req s = do path ← url_decode req.path; route path req s
