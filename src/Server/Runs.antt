-- ===== src/Server/Runs.antt =====
-- src/server/DataManager.hpp and Service.hpp: a service over time, with requests, restarts and a
-- clock that goes on, beside the entries that it should keep.
pub mod Entries
pub mod Kept
pub mod Uploads
pub mod Restart
pub mod Durable
use asyn_log_system.Server.DataManager.{construct}
use asyn_log_system.Server.Handler.{gen_handler}
use asyn_log_system.Server.DataManager.RwLock.{Fault}
use asyn_log_system.Server.DataManager.Items.{IsPlain}
use asyn_log_system.Prelude.Table.{find, assign, values, Table}
use asyn_log_system.Server.Store.{
  unknown, get, stored_url, stored_path, Makes, stored_bytes, put, Kind, Call,
}
use mathlib.Core.List.{Permᴰ}
use asyn_log_system.Server.Config.{Config}
use asyn_log_system.Prelude.Text.{Text}
use asyn_log_system.Server.DataManager.Entry.{to_array, StorageInfo}
use asyn_log_system.Prelude.{
  ◌>>=◌, ◌≤◌, size_mod, ok, ◌++◌, ◌∷◌, ◌<◌, Result, ◌≢◌, true, none, length, [], ◌≡◌, List, some, ℕ,
  Option,
}
use asyn_log_system.Json.{Json}
use asyn_log_system.Server.Service.{Session, Request}
use asyn_log_system.Server.Disk.{Host, Bundle, Disk}

-- What happens to a service.

pub data Event : Type 0 where
  request : Request → Event
  restart : Event
  clock : ℕ → Event

module _ (j : Json) (b : Bundle) (base64_decode : Text → Option Text) (h : Host) (c : Config)
    (strerror : Text) (junk : ℕ) (ctime : ℕ → Text) where
  -- A service through events: the callback answers a request, and a restart makes the manager anew
  -- from what is on disk.
  unfoldable pub run : List Event → Session → Result Fault Session
  run [] s = ok s
  run (request req ∷ events) s = do
    s' ← gen_handler j b base64_decode h c strerror junk ctime req s
    run events s'
  run (restart ∷ events) s = do
    w ← construct j h c s.world.disk
    run events (record s { world = w })
  run (clock now ∷ events) s =
      run events (record s { world = record s.world { disk = record s.world.disk { now = now } } })

-- The access time of a file that is written at `now`: that of what stood there, if anything did.
unfoldable pub from_age : Option ℕ → ℕ → ℕ
from_age none now = now
from_age (some atime) now = atime

unfoldable pub entry_age : Option StorageInfo → Option ℕ
entry_age none = none
entry_age (some info) = some info.atime

-- The entry that an upload at `now` leaves, with `before` what is recorded under its URL.
abbrev pub new_entry : Bundle → Config → Kind → Text → Text → ℕ → Option StorageInfo → StorageInfo
new_entry b c k name content now before = record {
  mtime = now;
  atime = from_age (entry_age before) now;
  fsize = length (stored_bytes b c k content);
  storage_path = stored_path c k name;
  url = stored_url c k name;
}

-- The entries after a call.
unfoldable pub recorded : Bundle → Config → Call → ℕ → Table StorageInfo → Table StorageInfo
recorded b c (put k name content) now e =
    assign (stored_url c k name) (new_entry b c k name content now (find (stored_url c k name) e)) e
recorded b c (get k name) now e = e
recorded b c unknown now e = e

-- This array of entries can be written to the storage file in full.
pub record IsWritable (j : Json) (h : Host) (c : Config) (infos : List StorageInfo) : Type 0 where
  pub body : Text
  pub written : j.write (to_array j infos j.null) ≡ some body
  pub short : length body < size_mod
  pub fits : length body ≤ h.room c.storage_info

-- The entries can be written in whatever order an iteration goes through them.
abbrev pub IsRecordable : Json → Host → Config → Table StorageInfo → Type 0
IsRecordable j h c e = (infos : List StorageInfo) → Permᴰ infos (values e) → IsWritable j h c infos

-- An upload at this time can be recorded: its entry comes through JSON and back, and there is room
-- for the table.
unfoldable pub CanRecord : Json → Bundle → Host → Config → Call → ℕ → Table StorageInfo → Type 0
CanRecord j b h c (put k name content) now e =
    IsPlain (new_entry b c k name content now (find (stored_url c k name) e))
    × IsRecordable j h c (recorded b c (put k name content) now e)
CanRecord j b h c (get k name) now e = Unit
CanRecord j b h c unknown now e = Unit

-- Events whose requests make these calls, with every upload recordable when it comes.
pub data Happens (j : Json) (base64_decode : Text → Option Text) (b : Bundle) (h : Host)
    (c : Config) : List Event → List Call → ℕ → Table StorageInfo → Type 0 where
  ends : (now : ℕ) (e : Table StorageInfo) → Happens j base64_decode b h c [] [] now e
  called :
      (req : Request) (call : Call) (events : List Event) (calls : List Call) (now : ℕ)
      (e : Table StorageInfo)
      → Makes base64_decode b h c req call
      → CanRecord j b h c call now e
      → Happens j base64_decode b h c events calls now (recorded b c call now e)
      → Happens j base64_decode b h c (request req ∷ events) (call ∷ calls) now e
  restarted :
      (events : List Event) (calls : List Call) (now : ℕ) (e : Table StorageInfo)
      → Happens j base64_decode b h c events calls now e
      → Happens j base64_decode b h c (restart ∷ events) calls now e
  passed :
      (events : List Event) (calls : List Call) (now later : ℕ) (e : Table StorageInfo)
      → Happens j base64_decode b h c events calls later e
      → Happens j base64_decode b h c (clock later ∷ events) calls now e

-- The storage file can be written and read, and no other file or directory is put in its place.
pub record IsKeepable (h : Host) (c : Config) : Type 0 where
  pub opens : h.can_write c.storage_info ≡ true
  pub readable : h.can_read c.storage_info ≡ true
  pub no_stored : (k : Kind) (name : Text) → c.storage_info ≢ stored_path c k name
  pub no_unpacked : (m : Text) → c.storage_info ≢ c.uncompress_dir ++ m
