-- ===== src/Server/DataManager/Access.antt =====
-- src/server/DataManager.hpp: what the operations give and do to the table and to its lock.
use asyn_log_system.Prelude.{
  ◌∙◌, ◌+◌, ◌≤◌, ◌≡◌, refl, inl, inr, true, false, List, [], ◌∷◌, none, some, if◌then◌else◌, Result,
  ok, err, ◌>>=◌, arith, Option-cases,
}
use asyn_log_system.Prelude.Text.{Text, text_eq}
use asyn_log_system.Prelude.Table.{find, assign, find-assign}
use asyn_log_system.Json.{Json, serialize}
use asyn_log_system.Server.Disk.{Disk, Host, set_content}
use asyn_log_system.Server.DataManager.RwLock.{Fault, deadlock, unlocked, rdlock, wrlock, unlock}
use asyn_log_system.Server.DataManager.Entry.{StorageInfo, to_array}
use asyn_log_system.Server.DataManager.{
  iterated, DataManager, World, put_entry, get_all, get_one_by_url, get_one_by_storage_path,
  storage, insert,
}

-- The disk after the table has been written out.
abbrev pub saved : (j : Json) → Host → DataManager → Disk → Disk
saved j h m d =
    (set_content h m.storage_file (serialize j (to_array j (iterated h m.table) j.null) []).1 d).1

pub put_entry_free :
    (info : StorageInfo) (m : DataManager)
    → m.lock ≡ unlocked
    → put_entry info m ≡ ok (record m { lock = unlocked; table = assign info.url info m.table })
unfolding put_entry wrlock unlock
put_entry_free info m free = ground arith

get_all_free :
    (h : Host) (m : DataManager)
    → m.lock ≡ unlocked
    → get_all h m ≡ ok (iterated h m.table, record m { lock = unlocked })
unfolding get_all rdlock unlock
get_all_free h m free = ground arith

storage_free :
    (j : Json) (h : Host) (w : World)
    → w.manager.lock ≡ unlocked
    → storage j h w
      ≡ ok (
        true,
        record {
          manager = record w.manager { lock = unlocked };
          disk = saved j h w.manager w.disk;
        },
      )
unfolding storage
storage_free j h w free = rw (get_all_free h w.manager free)

pub insert_free :
    (j : Json) (h : Host) (info : StorageInfo) (w : World)
    → w.manager.lock ≡ unlocked
    → let m = record w.manager { lock = unlocked; table = assign info.url info w.manager.table } in
      insert j h info w ≡ ok (true, record { manager = m; disk = saved j h m w.disk })
unfolding insert
insert_free j h info w free =
    let m : DataManager = record w.manager {
      lock = unlocked;
      table = assign info.url info w.manager.table;
    } in
    rw (put_entry_free info w.manager free, storage_free j h (record w { manager = m }) refl)

-- With the lock free, Insert comes to its end with the result true, whatever the disk does; the
-- lock is free again, and the entry is in the table under its URL with all else unchanged.
pub insert_total :
    (j : Json) (h : Host) (info : StorageInfo) (w : World)
    → w.manager.lock ≡ unlocked
    → (w' : World) × (insert j h info w ≡ ok (true, w'))
      × (w'.manager.lock ≡ unlocked)
      × (w'.manager.storage_file ≡ w.manager.storage_file)
      × ((k : Text)
          → find k w'.manager.table
            ≡ (if text_eq info.url k then some info else find k w.manager.table))
insert_total j h info w free =
    (_, insert_free j h info w free, refl, refl, λ k. find-assign info.url k info w.manager.table)

-- A call that only reads.
pub data Query : Type 0 where
  by_url by_storage_path : Text → Query
  all : Query

-- The manager after a call.
unfoldable pub ask : Host → Query → DataManager → Result Fault DataManager
ask h (by_url key) m = do (found, m') ← get_one_by_url key m; ok m'
ask h (by_storage_path path) m = do (found, m') ← get_one_by_storage_path h path m; ok m'
ask h all m = do (found, m') ← get_all h m; ok m'

unfoldable pub ask_all : Host → List Query → DataManager → Result Fault DataManager
ask_all h [] m = ok m
ask_all h (q ∷ qs) m = do m' ← ask h q m; ask_all h qs m'

-- Readers that never give the lock back.
abbrev pub IsHeld : DataManager → Type 0
IsHeld m = (m.lock.writer ≡ false) × (1 ≤ m.lock.readers)

ask-IsHeld :
    (h : Host) (q : Query) (m : DataManager)
    → IsHeld m
    → (m' : DataManager) × (ask h q m ≡ ok m') × IsHeld m' × (m'.table ≡ m.table)
unfolding ask get_one_by_url get_one_by_storage_path get_all rdlock unlock
ask-IsHeld h (by_url key) m held = elim (Option-cases (find key m.table)) [
  | inl e ↦ (
    record m { lock = record m.lock { readers = m.lock.readers + 1 } },
    ground arith,
    (ground arith, ground arith),
    refl,
  )
  | inr (info, e) ↦ (m, ground arith, held, refl)
]
ask-IsHeld h (by_storage_path path) m held = (m, ground arith, held, refl)
ask-IsHeld h all m held = (m, ground arith, held, refl)

-- While a reader holds the lock for good, reads go on and never free it.
ask_all-IsHeld :
    (h : Host) (qs : List Query) (m : DataManager)
    → IsHeld m
    → (m' : DataManager) × (ask_all h qs m ≡ ok m') × IsHeld m' × (m'.table ≡ m.table)
unfolding ask_all
ask_all-IsHeld h [] m held = (m, refl, held, refl)
ask_all-IsHeld h (q ∷ qs) m held =
    let (m1, e1, h1, t1) = ask-IsHeld h q m held in
    let (m2, e2, h2, t2) = ask_all-IsHeld h qs m1 h1 in (m2, rw (e1, e2), h2, t2 ∙ t1)

pub insert-IsHeld :
    (j : Json) (h : Host) (info : StorageInfo) (w : World)
    → IsHeld w.manager
    → insert j h info w ≡ err deadlock
unfolding insert put_entry wrlock
insert-IsHeld j h info w held = ground arith

pub miss-IsHeld :
    (key : Text) (m : DataManager)
    → find key m.table ≡ none
    → m.lock ≡ unlocked
    → (m' : DataManager) × (get_one_by_url key m ≡ ok (none, m')) × IsHeld m'
unfolding get_one_by_url rdlock
miss-IsHeld key m e free =
    (record m { lock = record { readers = 1; writer = false } }, ground arith, ground arith)

-- With the lock free, after a look-up of an unknown URL, and whatever reads come after it, Insert
-- never comes to its end.
pub miss_blocks_insert :
    (j : Json) (h : Host) (key : Text) (m : DataManager) (qs : List Query) (info : StorageInfo)
    (d : Disk)
    → find key m.table ≡ none
    → m.lock ≡ unlocked
    → (m' : DataManager) × ((do m1 ← ask h (by_url key) m; ask_all h qs m1) ≡ ok m')
      × (insert j h info (record { manager = m'; disk = d }) ≡ err deadlock)
unfolding ask
miss_blocks_insert j h key m qs info d e free =
    let (m1, e1, h1) = miss-IsHeld key m e free in
    let (m2, e2, h2, t2) = ask_all-IsHeld h qs m1 h1 in
    (m2, rw (e1, e2), insert-IsHeld j h info (record { manager = m2; disk = d }) h2)

-- A look-up of a known URL gives its entry and leaves the manager as it was.
pub get_one_by_url_found :
    (key : Text) (info : StorageInfo) (m : DataManager)
    → find key m.table ≡ some info
    → m.lock ≡ unlocked
    → get_one_by_url key m ≡ ok (some info, m)
unfolding get_one_by_url rdlock unlock
get_one_by_url_found key info m e free = ground arith

-- Listing all entries leaves the manager as it was.
pub get_all_same :
    (h : Host) (m : DataManager) → m.lock ≡ unlocked → get_all h m ≡ ok (iterated h m.table, m)
unfolding get_all rdlock unlock
get_all_same h m free = ground arith
