-- ===== src/Network.antt =====
-- Network.cpp, Network.h, Commander.cpp and Commander.h: commands as packets over a packet socket.
-- A pointer that is nullptr is `none`, and its use `none` too.
pub mod Commands
pub mod Delivery
pub mod Idle
use network_study.Prelude.{
  ℕ, ◌+◌, ◌%◌, ◌^◌, Bool, true, false, List, [], ◌∷◌, ◌++◌, Option, none, some, ◌>>=◌,
  if◌then◌else◌,
}
use network_study.Prelude.Int.{ℤ, to_size, int_of_size, int_of_bits}
use network_study.Bytes.{read, write, uint32_of, uint32_bytes}
use network_study.SimpleSocket.{
  SocketBuffer, SimpleSocket, Outcome, done, fault, running, of_option, zeros, send_packet,
  recv_packet, un_init,
}
use network_study.SimpleSocket.Server.{
  Calls, Updated, construct, init_server, init, connect, update_server, update, send_immediate,
}

pub record Command : Type 0 where
  pub packet : ℕ
  pub payload : List ℕ

pub record Network : Type 0 where
  pub enable : Bool
  pub commander : Option (List Command)
  pub socket : Option SimpleSocket

abbrev pub new_network : Network
new_network = record { enable = false; commander = none; socket = none }

-- The constructor of Command clears its data, and AddCommand does not set them.
unfoldable pub add_command : ℕ → List ℕ → ℤ → List Command → List Command
add_command packet payload data_len commands =
    commands ++ (record { packet = packet; payload = zeros } ∷ [])

-- The size field, the command and the data, in a buffer that was cleared.
unfoldable pub packet_of : ℕ → List ℕ → ℤ → Option (List ℕ)
unfolding read write
packet_of packet payload data_size = do
  sized ← write zeros 0 (uint32_bytes (to_size data_size % 2 ^ 32))
  flagged ← write sized 4 (packet ∷ [])
  bytes ← read payload 0 (to_size data_size)
  write flagged 5 bytes

-- `Write`, with what it returns.
unfoldable pub write_packet : ℕ → List ℕ → ℤ → Network → Option (Bool × Network)
unfolding packet_of send_packet
write_packet packet payload data_size net =
    if net.enable
    then (do
      buffer ← packet_of packet payload data_size
      socket ← net.socket
      socket' ← send_packet buffer (int_of_size ((to_size data_size + 5) % 2 ^ 64)) socket
      some (true, record net { socket = some socket' }))
    else some (false, net)

unfoldable pub parse_packet : SocketBuffer → Network → Option Network
unfolding add_command read
parse_packet b net = do
  size ← read b.buffer 0 4
  packet ← read b.buffer 4 1
  commands ← net.commander
  some (record net {
    commander =
        some (add_command (uint32_of packet) b.buffer (int_of_bits (uint32_of size)) commands);
  })

parse_next : Option (SocketBuffer × SimpleSocket) → Network → Option Network
unfolding parse_packet
parse_next none net = some net
parse_next (some (b, socket)) net = parse_packet b (record net { socket = some socket })

-- `Read`, with what it returns.
unfoldable pub read_packet : Network → Option (Bool × Network)
unfolding parse_next recv_packet
read_packet net =
    if net.enable
    then (do socket ← net.socket; net' ← parse_next (recv_packet socket) net; some (true, net'))
    else some (false, net)

-- `UnInit`, with the sockets that are closed. It deletes the commander and keeps the pointer, which
-- is `none` here as well: its use would be undefined.
unfoldable pub un_init_network : Network → Option (List ℕ × Network)
unfolding un_init
un_init_network net = net.socket >>= λ s.
    some ((un_init s).0, record net { enable = false; commander = none; socket = none })

-- `Init`, whatever the result of `Init` of the socket.
unfoldable pub init_network : Bool → ℕ → Bool → SimpleSocket → Network → Network
unfolding construct init_server
init_network startup_fails sock bind_fails memory net = record {
  enable = net.enable;
  commander = some [];
  socket = some (init sock bind_fails (construct startup_fails memory)).1;
}

-- `Connect`, with what it returns.
unfoldable pub connect_network : Network → Option (Bool × Network)
connect_network net =
    net.socket >>= λ s. let enable = connect s in some (enable, record net { enable = enable })

-- What `Update` of the network does after that of the socket.
after_update : Updated → Network → Option Network
unfolding read_packet
after_update r net =
    let net' = record net { enable = r.result; socket = some r.socket } in
    read_packet net' >>= λ p. some p.1

-- `Update`
unfoldable pub update_network : ℕ → Calls → Network → Outcome Network
unfolding after_update update_server
update_network fuel calls net =
    if net.enable
    then elim net.socket [
      | none ↦ fault
      | some s ↦ elim (update fuel calls s) [
        | done r ↦ of_option (after_update r net)
        | fault ↦ fault
        | running ↦ running
      ]
    ]
    else done net

-- `SendImmediate`
unfoldable send_immediate_network : List ℕ → ℤ → Network → Option (ℕ × List ℕ)
unfolding send_immediate
send_immediate_network bytes data_size net = net.socket >>= send_immediate bytes data_size
