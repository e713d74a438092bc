-- ===== src/Server/DataManager/Entry.antt =====
-- src/server/DataManager.hpp, `StorageInfo`, and its form in JSON.
use asyn_log_system.Prelude.{
  ℕ, Bool, true, false, List, [], ◌∷◌, ◌++◌, drop, length, ltb, Option, none, some, if◌then◌else◌,
  Result, ok, err, ◌>>=◌,
}
use asyn_log_system.Prelude.Text.{Text, codes, c_str}
use asyn_log_system.Server.Config.{Config}
use asyn_log_system.Json.{Json}
use asyn_log_system.Server.Disk.{Disk, Host, exists, file_size, last_modify_time, last_access_time}
use asyn_log_system.Server.DataManager.RwLock.{Fault, out_of_range, json_error}

-- `storage::StorageInfo`.
pub record StorageInfo : Type 0 where
  pub mtime : ℕ
  pub atime : ℕ
  pub fsize : ℕ
  pub storage_path : Text
  pub url : Text

-- A new object: its numbers are not initialised and have any value.
unfoldable pub blank : ℕ → StorageInfo
blank junk = record { mtime = junk; atime = junk; fsize = junk; storage_path = []; url = [] }

-- `NewStorageInfo(storage_path)` on `info`, with its result.
unfoldable pub new_storage_info :
    Config → Host → Text → Disk → StorageInfo → Result Fault (Bool × StorageInfo)
new_storage_info c h path d info =
    if exists path d
    then (if ltb (length path) 2
        then err out_of_range
        else ok (
          true,
          record {
            mtime = last_modify_time path d;
            atime = last_access_time path d;
            fsize = file_size h path d;
            storage_path = path;
            url = c.download_prefix ++ drop 2 path;
          },
        ))
    else ok (false, info)

or_throw {ℓ} : {A : Type ℓ} → Option A → Result Fault A
or_throw none = err json_error
or_throw (some a) = ok a

module _ (j : Json) where
  open j use {Value, null, int64, string, set, member, append, elements, as_int, as_string}

  -- The item that `Storage` makes of one entry, member by member.
  unfoldable pub to_json : StorageInfo → Value
  to_json info =
      let v1 = set null (codes "mtime_") (int64 info.mtime) in
      let v2 = set v1 (codes "atime_") (int64 info.atime) in
      let v3 = set v2 (codes "fsize_") (int64 info.fsize) in
      let v4 = set v3 (codes "url_") (string (c_str info.url)) in
      set v4 (codes "storage_path_") (string (c_str info.storage_path))

  -- The entry that `InitLoad` makes of one item.
  unfoldable pub of_json : Value → Result Fault StorageInfo
  unfolding or_throw
  of_json v = do
    fsize ← or_throw (as_int (member v (codes "fsize_")))
    atime ← or_throw (as_int (member v (codes "atime_")))
    mtime ← or_throw (as_int (member v (codes "mtime_")))
    storage_path ← or_throw (as_string (member v (codes "storage_path_")))
    url ← or_throw (as_string (member v (codes "url_")))
    ok (record {
      mtime = mtime;
      atime = atime;
      fsize = fsize;
      storage_path = storage_path;
      url = url;
    })

  -- The array that `Storage` makes of all entries.
  unfoldable pub to_array : List StorageInfo → Value → Value
  to_array [] root = root
  to_array (info ∷ rest) root = to_array rest (append root (to_json info))
