-- ===== src/Server/DataManager/RwLock.antt =====
-- The `pthread_rwlock_t` of src/server/DataManager.hpp, for the one thread that serves requests:
-- where that thread would wait for itself, it waits for ever.
use asyn_log_system.Prelude.{
  ℕ, ◌+◌, ◌-◌, Bool, true, false, ◌||◌, not, ◌==◌, if◌then◌else◌, Result, ok, err,
}

-- Why the service does not come to its end.
pub data Fault : Type 0 where
  deadlock : Fault  -- a lock is waited for that nobody gives back
  json_error : Fault  -- an exception of the JSON library
  out_of_range : Fault  -- `std::out_of_range` of `substr`
  assertion : Fault  -- a failed `assert`
  bad_base64 : Fault  -- an exception of the base64 library
  null_string : Fault  -- a `std::string` made from a null pointer
  null_server : Fault  -- libevent called with a null pointer for its HTTP server

pub record Lock : Type 0 where
  pub readers : ℕ
  pub writer : Bool

abbrev pub unlocked : Lock
unlocked = record { readers = 0; writer = false }

-- `pthread_rwlock_rdlock`.
unfoldable pub rdlock : Lock → Result Fault Lock
rdlock l = if l.writer then err deadlock else ok (record l { readers = l.readers + 1 })

-- `pthread_rwlock_wrlock`.
unfoldable pub wrlock : Lock → Result Fault Lock
wrlock l =
    if l.writer || not (l.readers == 0) then err deadlock else ok (record l { writer = true })

-- `pthread_rwlock_unlock`.
unfoldable pub unlock : Lock → Lock
unlock l = if l.writer then record l { writer = false } else record l { readers = l.readers - 1 }
