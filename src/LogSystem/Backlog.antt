-- ===== src/LogSystem/Backlog.antt =====
-- logSystem/backlog: the client and the server for the remote backup of messages. Sockets are
-- outside of the model: which attempts to connect succeed, what one `write` sends and what one
-- `read` brings are parameters.
pub mod Connect
pub mod Store
pub mod Accept
pub mod Listen
pub mod Listening
mod Tests
use asyn_log_system.Prelude.{
  ltb, take, ℕ, zero, suc, ◌+◌, ◌-◌, ◌≡◌, ◌≤◌, Bool, true, false, List, [], ◌∷◌, ◌++◌, length,
  Option, none, some, leb, ◌==◌, if◌then◌else◌, Result, ok, err, ◌>>=◌,
}
use asyn_log_system.Prelude.Text.{Text, codes, c_str}
use asyn_log_system.Prelude.Decimal.{decimal}

-- The loop of `start_backup` with `cnt` and the number of the next attempt: whether it connects,
-- and the attempts made in all.
unfoldable pub connect_from : (ℕ → Bool) → ℕ → ℕ → Bool × ℕ
connect_from connects zero i = (connects i, i + 1)
connect_from connects (suc cnt) i =
    let rest = connect_from connects cnt (i + 1) in
    if connects i then (true, i + 1) else if leb cnt 0 then (false, i + 1) else rest

-- `start_backup(message)`: what is sent, if anything, and the attempts made.
unfoldable pub start_backup : (ℕ → Bool) → (Text → Option Text) → Text → Option Text × ℕ
start_backup connects write message =
    let (connected, attempts) = connect_from connects 5 0 in
    (if connected then write message else none, attempts)

-- Why a thread of the server does not come to its end.
pub data Fault : Type 0 where
  out_of_bounds : Fault  -- `buff[r_ret]` behind the end of the array
  assertion : Fault  -- the log file cannot be opened, or not be written in full

-- What the server's log file holds, whether it can be opened, and how many bytes find room.
pub record LogFile : Type 0 where
  pub content : Text
  pub opens : Bool
  pub room : ℕ

-- `backup_log(message)`, under its lock.
unfoldable pub backup_log : Text → LogFile → Result Fault LogFile
backup_log message f =
    if f.opens
    then if leb (length message) f.room
      then ok (record f { content = f.content ++ message; room = f.room - length message })
      else err assertion
    else err assertion

-- `client_info` of `threadRoutine`.
unfoldable pub client_info : Text → ℕ → Text
client_info ip port = ip ++ codes ":" ++ decimal port

-- `sizeof(buff)`.
abbrev pub buff_size : ℕ
buff_size = 1024

-- `read(sock, buff, n)` on what one read can bring from the socket: at most `n` bytes.
abbrev pub read_at_most : ℕ → Text → Text
read_at_most n sent = take n sent

-- `buff[i] = 0`.
unfoldable pub end_at : ℕ → Text → Result Fault Text
end_at i got = if ltb i buff_size then ok (c_str got) else err out_of_bounds

-- `service(sock, client_info)` on what one read can bring; `none` is a read that gives -1. The
-- string that is made of the array ends at its first 0 byte.
unfoldable pub service : Option Text → Text → LogFile → Result Fault LogFile
service none client f = ok f
service (some sent) client f =
    let got = read_at_most buff_size sent in
    if length got == 0
    then ok f
    else (do tmp ← end_at (length got) got; backup_log (client ++ tmp) f)

-- `threadRoutine` for one connection after the other, in the order in which they get the lock.
unfoldable pub serve_all : List (Text × ℕ × Option Text) → LogFile → Result Fault LogFile
serve_all [] f = ok f
serve_all ((ip, port, got) ∷ rest) f = do
  f' ← service got (client_info ip port) f
  serve_all rest f'

-- `start_service()` for the results of `accept`, one after the other: the connections for which a
-- thread is started. After a failure of `accept` the loop goes on; the threads
-- can all be made.
unfoldable pub start_service {ℓ} : {A : Type ℓ} → List (Option A) → List A
start_service [] = []
start_service (none ∷ rest) = start_service rest
start_service (some connection ∷ rest) = connection ∷ start_service rest
