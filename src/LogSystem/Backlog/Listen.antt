-- ===== src/LogSystem/Backlog/Listen.antt =====
-- logSystem/backlog/ServerBackupLog.hpp and ServerBackupLog.cpp: how the backup server gets its
-- port and its socket.
use asyn_log_system.Prelude.Decimal.{is_not_digit}
use asyn_log_system.Prelude.{
  ◌-◌, ◌%◌, ◌&&◌, ◌+◌, true, ◌^◌, ok, ◌*◌, ltb, leb, ◌||◌, err, [], Result, ◌∷◌, ◌==◌, Option,
  false, ◌++◌, if◌then◌else◌, Bool, ℕ, List,
}
use asyn_log_system.Prelude.Text.{Text}
use asyn_log_system.LogSystem.Backlog.{start_service}

-- What `isspace` finds.
abbrev pub is_space : ℕ → Bool
is_space c = c == 32 || leb 9 c && leb c 13

unfoldable pub skip_spaces : Text → Text
skip_spaces [] = []
skip_spaces (c ∷ s) = let rest = skip_spaces s in if is_space c then rest else c ∷ s

-- The digits at the front.
unfoldable pub digits_value : ℕ → Text → ℕ
digits_value acc [] = acc
digits_value acc (c ∷ s) =
    let rest = digits_value (acc * 10 + (c - 48)) s in if is_not_digit c then acc else rest

-- An `int` as the `uint16_t` that it becomes, for a number and its negative; what `atoi` gives
-- beyond an `int` is not defined.
unfoldable pub to_port : ℕ → ℕ → ℕ
to_port beyond v = if ltb v (2 ^ 31) then v % 2 ^ 16 else beyond % 2 ^ 16

unfoldable pub to_port_negative : ℕ → ℕ → ℕ
to_port_negative beyond v =
    if leb v (2 ^ 31) then (2 ^ 16 - v % 2 ^ 16) % 2 ^ 16 else beyond % 2 ^ 16

unfoldable pub signed : ℕ → Text → ℕ
signed beyond [] = 0
signed beyond (c ∷ s) =
    if c == 45
    then to_port_negative beyond (digits_value 0 s)
    else if c == 43
    then to_port beyond (digits_value 0 s)
    else to_port beyond (digits_value 0 (c ∷ s))

-- `uint16_t port = atoi(arg)`.
unfoldable pub port_of : ℕ → Text → ℕ
port_of beyond arg = signed beyond (skip_spaces arg)

pub data Socket : Type 0 where
  no_socket : Socket
  unbound : Socket
  bound : ℕ → Socket

-- What the calls on sockets give: a new socket, a bind to a port, a listen, and the results of
-- `accept` on a socket that listens.
pub record Network {ℓ} (A : Type ℓ) : Type ℓ where
  pub creates : Bool
  pub binds : ℕ → Bool
  pub listens : Bool
  pub accepts : Socket → List (Option A)

-- `TcpServer`, and whether its socket listens.
pub record TcpServer : Type 0 where
  pub port : ℕ
  pub listen_sock : Socket
  pub listening : Bool

-- `TcpServer(port, func)`; the socket is not initialised.
unfoldable pub new_server : ℕ → TcpServer
new_server port = record { port = port; listen_sock = no_socket; listening = false }

-- The messages that `init_service` prints.
pub data Printed : Type 0 where
  socket_error bind_error listen_error : Printed

module _ {ℓ} {A : Type ℓ} (net : Network A) where
  unfoldable pub create_socket : Socket × List Printed
  create_socket = if net.creates then (unbound, []) else (no_socket, socket_error ∷ [])

  unfoldable pub bind_socket : ℕ → Socket → Socket × List Printed
  bind_socket port no_socket = (no_socket, bind_error ∷ [])
  bind_socket port unbound = if net.binds port then (bound port, []) else (unbound, bind_error ∷ [])
  bind_socket port (bound p) = (bound p, bind_error ∷ [])

  -- A socket that is not bound listens on a port of the system's choice.
  unfoldable pub listen_on : Socket → Bool × List Printed
  listen_on no_socket = (false, listen_error ∷ [])
  listen_on unbound = if net.listens then (true, []) else (false, listen_error ∷ [])
  listen_on (bound p) = if net.listens then (true, []) else (false, listen_error ∷ [])

  -- `init_service()`. Each failure is printed, and the method goes on.
  unfoldable pub init_service : TcpServer → TcpServer × List Printed
  unfolding create_socket bind_socket listen_on
  init_service t =
      let (made, e1) = create_socket in
      let (sock, e2) = bind_socket t.port made in
      let (listening, e3) = listen_on sock in
      (record t { listen_sock = sock; listening = listening }, e1 ++ e2 ++ e3)

  -- What `accept` gives; on any other socket it fails every time.
  unfoldable pub accepted : TcpServer → List (Option A)
  accepted t = if t.listening then net.accepts t.listen_sock else []

  -- `exit(-1)` after a message on the usage.
  pub data Usage : Type 0 where
    usage : Usage

  -- `main(args, argv)`: the connections for which the server starts a thread.
  unfoldable pub main : ℕ → List Text → Result Usage (List A)
  main beyond [] = err usage
  main beyond (program ∷ []) = err usage
  main beyond (program ∷ arg ∷ []) =
      ok (start_service (accepted (init_service (new_server (port_of beyond arg))).0))
  main beyond (program ∷ arg ∷ more ∷ rest) = err usage
