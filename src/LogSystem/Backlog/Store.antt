-- ===== src/LogSystem/Backlog/Store.antt =====
-- logSystem/backlog/ServerBackupLog.hpp and ServerBackupLog.cpp: what of a message is stored.
use asyn_log_system.Prelude.{
  take_of_le, take, ltb, length-take, ℕ, ◌+◌, ◌-◌, ◌≡◌, ◌≢◌, ◌↔◌, ◌≤◌, ◌<◌, refl, sym, ◌∙◌, true,
  false, List, [], ◌∷◌, ◌++◌, length, concat, map, Option, some, leb, ◌==◌, ok, err, arith,
  append_assoc, append-nil, length-append,
}
use asyn_log_system.Prelude.Text.{Text, c_str}
use asyn_log_system.LogSystem.Backlog.{
  end_at, out_of_bounds, LogFile, backup_log, client_info, service, serve_all,
}

-- A message that one read brings whole and that holds no 0 byte.
pub record IsShort (message : Text) : Type 0 where
  pub some_bytes : length message ≢ 0
  pub fits : length message < 1024
  pub plain : c_str message ≡ message

service-short :
    (message client : Text) (f : LogFile)
    → IsShort message
    → f.opens ≡ true
    → length (client ++ message) ≤ f.room
    → service (some message) client f
      ≡ ok (record f {
        content = f.content ++ (client ++ message);
        room = f.room - length (client ++ message);
      })
unfolding service backup_log end_at
service-short message client f v opens room =
    let some_bytes : (length message == 0) ≡ false = ground (arith, v.some_bytes) in
    let fits : ltb (length message) 1024 ≡ true = ground (arith, v.fits) in
    let whole : take 1024 message ≡ message = take_of_le 1024 message (omega (arith, v.fits)) in
    let enough : leb (length (client ++ message)) f.room ≡ true = ground arith in
    rw (whole, some_bytes, fits, v.plain, opens, enough) refl

-- A thread of the backup server writes behind its array exactly if 1024 bytes or more are there for
-- its read.
pub service-out_of_bounds :
    (message client : Text) (f : LogFile)
    → (service (some message) client f ≡ err out_of_bounds) ↔ (1024 ≤ length message)
unfolding service backup_log end_at
service-out_of_bounds message client f = ground (arith, length-take 1024 message)

-- A client's address, port and message.
abbrev pub Sent : Type 0
Sent = Text × ℕ × Text

abbrev pub received : Sent → Text × ℕ × Option Text
received (ip, port, message) = (ip, port, some message)

abbrev pub entry_of : Sent → Text
entry_of (ip, port, message) = client_info ip port ++ message

abbrev pub AllShort : List Sent → Type 0
AllShort [] = Unit
AllShort ((ip, port, message) ∷ rest) = IsShort message × AllShort rest

-- If one read brings each message whole, the messages are shorter than 1024 bytes and hold no 0
-- byte, and the log file can be opened and has room, then the server's threads append, for each
-- message in the order in which they get the lock, the client's address and port and the message.
pub serve_all-stored :
    (messages : List Sent) (f : LogFile)
    → AllShort messages
    → f.opens ≡ true
    → length (concat (map entry_of messages)) ≤ f.room
    → (f' : LogFile) × (serve_all (map received messages) f ≡ ok f')
      × (f'.content ≡ f.content ++ concat (map entry_of messages))
unfolding serve_all
serve_all-stored [] f short opens room = (f, refl, sym (append-nil f.content))
serve_all-stored ((ip, port, message) ∷ rest) f (v, short) opens room =
    let entry : Text = client_info ip port ++ message in
    let size : length (entry ++ concat (map entry_of rest))
        ≡ length entry + length (concat (map entry_of rest)) =
      length-append entry (concat (map entry_of rest)) in
    let f1 : LogFile = record f { content = f.content ++ entry; room = f.room - length entry } in
    let (f', e, stored) = serve_all-stored rest f1 short opens (omega (arith, size, room)) in
    (
      f',
      rw (service-short message (client_info ip port) f v opens (omega (arith, size, room))) e,
      stored ∙ append_assoc f.content entry (concat (map entry_of rest)),
    )
