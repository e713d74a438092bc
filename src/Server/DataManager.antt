-- ===== src/Server/DataManager.antt =====
-- src/server/DataManager.hpp: the table of stored files, its lock, and its copy on disk.
pub mod RwLock
pub mod Entry
pub mod Access
pub mod Items
pub mod Reload
pub mod Order
use asyn_log_system.Prelude.{
  ℕ, ◌≡◌, Bool, true, false, List, [], ◌∷◌, ◌++◌, Option, none, some, if◌then◌else◌, Result, ok,
  err, ◌>>=◌,
}
use asyn_log_system.Prelude.Text.{Text, text_eq}
use asyn_log_system.Prelude.Table.{Table, find, assign, values}
use asyn_log_system.Json.{Json, serialize, unserialize}
use asyn_log_system.Server.Config.{Config}
use asyn_log_system.Server.Disk.{Disk, Host, exists, get_content, set_content}
use RwLock.{Fault, Lock, unlocked, rdlock, wrlock, unlock}
use Entry.{StorageInfo, to_array, of_json}

-- `storage::DataManager`.
pub record DataManager : Type 0 where
  pub storage_file : Text
  pub lock : Lock
  pub table : Table StorageInfo

-- A manager beside the disk that it writes to.
pub record World : Type 0 where
  pub manager : DataManager
  pub disk : Disk

-- Under the write lock, one entry of the table.
unfoldable pub put_entry : StorageInfo → DataManager → Result Fault DataManager
put_entry info m = do
  held ← wrlock m.lock
  ok (record m { lock = unlock held; table = assign info.url info m.table })

-- The entries, as `for (auto e : table_)` goes through them.
abbrev pub iterated : Host → Table StorageInfo → List StorageInfo
iterated h t = values (h.order t)

-- `GetAll(arry)` on an empty vector.
unfoldable pub get_all : Host → DataManager → Result Fault (List StorageInfo × DataManager)
get_all h m = do held ← rdlock m.lock; ok (iterated h m.table, record m { lock = unlock held })

-- `GetOneByURL(key, info)`. On a missing key the lock stays held.
unfoldable pub get_one_by_url : Text → DataManager → Result Fault (Option StorageInfo × DataManager)
get_one_by_url key m = do
  held ← rdlock m.lock
  elim (find key m.table) [
    | none ↦ ok (none, record m { lock = held })
    | some info ↦ ok (some info, record m { lock = unlock held })
  ]

first_at : Text → List StorageInfo → Option StorageInfo
first_at path [] = none
first_at path (info ∷ rest) =
    if text_eq info.storage_path path then some info else first_at path rest

-- `GetOneByStoragePath(storage_path, info)`.
unfoldable pub get_one_by_storage_path :
    Host → Text → DataManager → Result Fault (Option StorageInfo × DataManager)
unfolding first_at
get_one_by_storage_path h path m = do
  held ← rdlock m.lock
  ok (first_at path (iterated h m.table), record m { lock = unlock held })

module _ (j : Json) (h : Host) where
  -- `Storage()`. The results of `Serialize` and of `SetContent` are not used.
  unfoldable pub storage : World → Result Fault (Bool × World)
  storage w = do
    (arr, m) ← get_all h w.manager
    let body = (serialize j (to_array j arr j.null) []).1
    ok (true, record { manager = m; disk = (set_content h w.manager.storage_file body w.disk).1 })

  -- `Insert(info)`.
  unfoldable pub insert : StorageInfo → World → Result Fault (Bool × World)
  insert info w = do
    m ← put_entry info w.manager
    (stored, w') ← storage (record w { manager = m })
    ok (if stored then true else false, w')

  -- The loop of `InitLoad`.
  unfoldable pub load_items : List j.Value → DataManager → Result Fault DataManager
  load_items [] m = ok m
  load_items (v ∷ vs) m = do info ← of_json j v; m' ← put_entry info m; load_items vs m'

  -- `InitLoad()`.
  unfoldable pub init_load : World → Result Fault (Bool × World)
  init_load w =
      if exists w.manager.storage_file w.disk
      then elim (get_content h w.manager.storage_file w.disk) [
        | none ↦ ok (false, w)
        | some body ↦ do
          m ← load_items (j.elements (unserialize j body j.null).1) w.manager
          ok (true, record w { manager = m })
      ]
      else ok (false, w)

  -- `DataManager()`.
  unfoldable pub construct : Config → Disk → Result Fault World
  construct c d = do
    (loaded, w) ← init_load (record {
      manager = record { storage_file = c.storage_info; lock = unlocked; table = [] };
      disk = d;
    })
    ok w
