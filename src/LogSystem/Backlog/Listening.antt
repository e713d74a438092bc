-- ===== src/LogSystem/Backlog/Listening.antt =====
-- logSystem/backlog/ServerBackupLog.hpp and ServerBackupLog.cpp: the port that is listened on, and
-- the backup server as a whole.
use asyn_log_system.LogSystem.Backlog.Accept.{start_service-stored, total}
use asyn_log_system.LogSystem.Backlog.{serve_all, start_service, LogFile}
use asyn_log_system.LogSystem.Backlog.Store.{entry_of, received, AllShort, Sent}
use asyn_log_system.Prelude.Decimal.{value-decimal, has-decimal, decimal, value_from, is_not_digit}
use asyn_log_system.Prelude.Text.{Text, has}
use asyn_log_system.Prelude.{
  concat, ◌++◌, map, ok, true, ◌↔◌, List, ◌&&◌, ◌∙◌, lt→ltb, ◌==◌, ◌-◌, refl, ◌+◌, [], ◌*◌, arith,
  ◌∷◌, ◌≤◌, ◌%◌, false, ◌^◌, ◌≡◌, ◌<◌, ℕ,
}
use asyn_log_system.LogSystem.Backlog.Listen.{
  bound, Network, listen_on, bind_socket, create_socket, accepted, new_server, main, init_service,
  to_port, signed, port_of, digits_value, skip_spaces,
}
use mathlib.Core.List.{Permᴰ}

digit_lem : (c : ℕ) → is_not_digit c ≡ false → (48 ≤ c) × (c < 58)
digit_lem c e = ground arith

digits_value-value_from :
    (acc : ℕ) (s : Text) → has is_not_digit s ≡ false → digits_value acc s ≡ value_from acc s
unfolding digits_value value_from has
digits_value-value_from acc [] e = refl
digits_value-value_from acc (c ∷ s) e =
    ground (arith, digits_value-value_from (acc * 10 + (c - 48)) s)

skip_spaces-digits : (s : Text) → has is_not_digit s ≡ false → skip_spaces s ≡ s
unfolding skip_spaces has
skip_spaces-digits [] e = refl
skip_spaces-digits (c ∷ s) e = ground (arith, digit_lem c)

has-first : (c : ℕ) (s : Text) → has is_not_digit (c ∷ s) ≡ false → is_not_digit c ≡ false
unfolding has
has-first c s e = ground arith

signed-digits :
    (beyond : ℕ) (s : Text)
    → has is_not_digit s ≡ false
    → value_from 0 s < 2 ^ 31
    → signed beyond s ≡ value_from 0 s % 2 ^ 16
unfolding signed to_port value_from
signed-digits beyond [] e small = refl
signed-digits beyond (c ∷ s) e small =
    let (low, high) = digit_lem c (has-first c s e) in
    let no_minus : (c == 45) ≡ false = ground arith in
    let no_plus : (c == 43) ≡ false = ground arith in
    rw
      (
        no_minus,
        no_plus,
        digits_value-value_from 0 (c ∷ s) e,
        lt→ltb (value_from 0 (c ∷ s)) (2 ^ 31) small,
      )
      refl

pub port_of-decimal : (beyond n : ℕ) → n < 2 ^ 16 → port_of beyond (decimal n) ≡ n
unfolding port_of
port_of-decimal beyond n small = rw (skip_spaces-digits (decimal n) (has-decimal n)) (
    signed-digits beyond (decimal n) (has-decimal n) (rw (value-decimal n) (omega arith))
    ∙ rw (value-decimal n) (omega arith))

-- After init_service the backup server listens if and only if a socket could be made and listened
-- on, whether or not its port could be bound; its socket is bound to its port exactly if it could
-- be made and bound; and nothing is printed exactly if all three calls succeed.
pub init_service_lem {ℓ} :
    {A : Type ℓ} (net : Network A) (port : ℕ)
    → let (t, printed) = init_service net (new_server port) in
      (t.listening ≡ (net.creates && net.listens))
      × ((t.listen_sock ≡ bound port) ↔ ((net.creates && net.binds port) ≡ true))
      × ((printed ≡ []) ↔ ((net.creates && net.binds port && net.listens) ≡ true))
unfolding init_service new_server create_socket bind_socket listen_on
init_service_lem net port = ground arith

-- If the backup server is started with a number below 65536 in decimal as its only argument, a
-- socket can be made, bound to that port and listened on, one read brings each accepted message
-- whole, the messages are shorter than 1024 bytes and hold no 0 byte, and the log file can be
-- opened and has room for all of them, then main starts a thread for each connection that is
-- accepted on that port, and the threads append, in whatever order they get the lock, the client's
-- address and port and the message of each.
pub main-stored :
    (net : Network Sent) (beyond n : ℕ) (program : Text) (order : List Sent) (f : LogFile)
    → n < 2 ^ 16
    → net.creates ≡ true
    → net.binds n ≡ true
    → net.listens ≡ true
    → Permᴰ (start_service (net.accepts (bound n))) order
    → AllShort (start_service (net.accepts (bound n)))
    → f.opens ≡ true
    → total (start_service (net.accepts (bound n))) ≤ f.room
    → (started : List Sent) × (f' : LogFile) × (main net beyond (program ∷ decimal n ∷ [])
        ≡ ok started)
      × (started ≡ start_service (net.accepts (bound n)))
      × (serve_all (map received order) f ≡ ok f')
      × (f'.content ≡ f.content ++ concat (map entry_of order))
unfolding main init_service accepted new_server create_socket bind_socket listen_on
main-stored net beyond n program order f small creates binds listens perm short opens room =
    let (f', served, content) =
      start_service-stored (net.accepts (bound n)) order f perm short opens room in
    (
      start_service (net.accepts (bound n)),
      f',
      rw (port_of-decimal beyond n small, creates, binds, listens),
      refl,
      served,
      content,
    )
