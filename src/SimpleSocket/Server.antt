-- ===== src/SimpleSocket/Server.antt =====
-- SimpleSocket.cpp, the calls that start, drive and end the socket, in the build with SERVER defined.
-- winsock is not modelled: what its calls return is an argument, and the sockets that are handed to
-- `closesocket` are part of the result. The addresses are left out, but for the text that `InitClient`
-- hands to `InetPtonW`.
use network_study.Prelude.{
  ℕ, Bool, true, false, List, [], ◌∷◌, ◌++◌, Option, none, some, ◌>>=◌, if◌then◌else◌, ◌==◌, not,
  codes, length,
}
use network_study.Prelude.Int.{ℤ, pos, is_positive, to_size}
use network_study.Bytes.{read, write}
use network_study.MemDb.{Str, MemDb, get_value}
use network_study.SimpleSocket.{
  SimpleSocket, Outcome, of_option, done, fault, running, invalid_socket, place, update_connected,
  close_server,
}

-- The constructor, with whether WSAStartup fails: then the sockets keep what was in memory.
unfoldable pub construct : Bool → SimpleSocket → SimpleSocket
construct startup_fails s =
    if startup_fails
    then s
    else record s { server_sock = invalid_socket; client_sock = invalid_socket }

-- `InitServer`, with the result of `socket`, and whether `bind` fails, which is only logged.
unfoldable pub init_server : ℕ → Bool → SimpleSocket → Bool × SimpleSocket
init_server sock bind_fails s =
    let t = record s { server_sock = sock } in
    if sock == invalid_socket then (false, t) else (true, t)

-- SERVER_ADDRESS
abbrev default_address : Str
default_address = codes "192.168.0.6"

unfoldable address_of : MemDb → Str
unfolding get_value
address_of db = elim (get_value (codes "ServerAddress") db) [
  | [] ↦ default_address
  | c ∷ cs ↦ c ∷ cs
]

-- `InitClient`, with the address that the socket is given, if it comes that far.
unfoldable init_client : ℕ → Bool → MemDb → SimpleSocket → Bool × Option Str × SimpleSocket
unfolding address_of
init_client sock option_fails db s =
    let t = record s { client_sock = sock } in
    if sock == invalid_socket
    then (false, none, t)
    else if option_fails
    then (false, some (address_of db), t)
    else (true, some (address_of db), t)

unfoldable pub close_client : SimpleSocket → List ℕ × SimpleSocket
close_client s =
    if s.client_sock == invalid_socket
    then ([], s)
    else (s.client_sock ∷ [], record s { client_sock = invalid_socket })

-- `Connect` in this build.
abbrev pub connect : SimpleSocket → Bool
connect s = false

-- What the calls of winsock return in one `UpdateServer`: `select` and `recv` once a client is there
-- (nothing if there is nothing to read), and `accept`, `ioctlsocket` and the first `send` before.
pub record Calls : Type 0 where
  pub accepted : ℕ
  pub ioctl_fails : Bool
  pub greeting_fails : Bool
  pub select_fails : Bool
  pub received : Option (List ℕ)
  pub taken : List ℕ → ℤ

-- The sockets that were closed, the greeting that was handed to `send`, and what is returned.
pub record Updated : Type 0 where
  pub closed : List ℕ
  pub greeting : List ℕ
  pub result : Bool
  pub socket : SimpleSocket

-- "Welcome!!" with its end, of which as many bytes go out as a pointer has.
abbrev pub greeting_text : List ℕ
greeting_text = codes "Welcome!!" ++ (0 ∷ [])

-- The branch of `UpdateServer` that waits for a client.
unfoldable pub accept_client : Calls → SimpleSocket → Option Updated
unfolding read
accept_client calls s =
    let t = record s { client_sock = calls.accepted } in
    if calls.accepted == invalid_socket
    then some (record { closed = s.server_sock ∷ []; greeting = []; result = false; socket = t })
    else if calls.ioctl_fails
    then some (record { closed = []; greeting = []; result = false; socket = t })
    else (read greeting_text 0 8 >>= λ bytes.
        some
          (record { closed = []; greeting = bytes; result = not calls.greeting_fails; socket = t }))

-- A client is closed when `recv` gives nothing or fails.
unfoldable pub leaves : Calls → Bool
leaves calls =
    if calls.select_fails
    then false
    else elim calls.received [ none ↦ false | some [] ↦ true | some (x ∷ xs) ↦ false ]

unfoldable pub update_server : ℕ → Calls → SimpleSocket → Outcome Updated
unfolding accept_client leaves update_connected
update_server fuel calls s =
    if s.client_sock == invalid_socket
    then elim (accept_client calls s) [ none ↦ fault | some r ↦ done r ]
    else elim (update_connected fuel calls.select_fails calls.received calls.taken s) [
      | done t ↦ done (record {
        closed = if leaves calls then s.client_sock ∷ [] else [];
        greeting = [];
        result = true;
        socket = t;
      })
      | fault ↦ fault
      | running ↦ running
    ]

store_first : List ℕ → SimpleSocket → Option SimpleSocket
unfolding write
store_first bytes s = write s.recv_buffer.buffer 0 bytes >>= λ b. some (record s {
  recv_buffer = record {
    total_size = pos (length bytes);
    current_size = s.recv_buffer.current_size;
    buffer = b;
  };
})

-- `UpdateClient`, with what `recv` has returned, nothing also for an error; in this build `CloseSocket`
-- is `CloseServer`. The first bytes are only copied: `RecvDone` is called from the second arrival on.
unfoldable update_client : ℕ → List ℕ → SimpleSocket → Outcome Updated
unfolding close_server place store_first
update_client fuel [] s =
    let (closed, t) = close_server s in
    done (record { closed = closed; greeting = []; result = false; socket = t })
update_client fuel (x ∷ xs) s =
    let later = place fuel s.recv_buffer.total_size (x ∷ xs) s in
    let first = of_option (store_first (x ∷ xs) s) in
    elim (if is_positive s.recv_buffer.total_size then later else first) [
      | done t ↦ done (record { closed = []; greeting = []; result = true; socket = t })
      | fault ↦ fault
      | running ↦ running
    ]

-- `SendImmediate`: the socket and the bytes that are handed to `send`. The socket is the listener.
unfoldable pub send_immediate : List ℕ → ℤ → SimpleSocket → Option (ℕ × List ℕ)
unfolding read
send_immediate buffer data_size s =
    read buffer 0 (to_size data_size) >>= λ bytes. some (s.server_sock, bytes)

-- `Init`, `Update` and `CloseSocket` in this build.
abbrev pub init : ℕ → Bool → SimpleSocket → Bool × SimpleSocket
init sock bind_fails s = init_server sock bind_fails s

abbrev pub update : ℕ → Calls → SimpleSocket → Outcome Updated
update fuel calls s = update_server fuel calls s

abbrev pub close_socket : SimpleSocket → List ℕ × SimpleSocket
close_socket s = close_server s
