-- ===== src/SimpleSocket.antt =====
-- SimpleSocket.cpp, SimpleSocket.h: packets over one TCP connection, in buffers of fixed size.
-- The model is that of the build with SERVER defined. winsock is not modelled: what its calls return
-- is an argument. `Outcome` tells undefined behaviour from a loop that has not ended yet.
pub mod Pending
pub mod Sending
pub mod Framing
pub mod Stream
pub mod Receiving
pub mod Splitting
pub mod Parts
pub mod Server
pub mod Bounds
pub mod Listener
use network_study.Prelude.{
  ℕ, zero, suc, ◌+◌, ◌-◌, ◌%◌, ◌^◌, ◌≡◌, Bool, true, false, List, [], ◌∷◌, ◌++◌, Option, none, some,
  ◌>>=◌, ltb, leb, if◌then◌else◌, length, take, replicate, ◌==◌,
}
use network_study.Prelude.Int.{
  ℤ, pos, negsuc, is_positive, to_size, int_of_size, int_of_bits, add_int, sub_int,
}
use network_study.Bytes.{read, write, uint32_of}

-- SOCKET_BUFFER
abbrev pub socket_buffer : ℕ
socket_buffer = 4096

-- A buffer as the constructor leaves it.
unfoldable pub zeros : List ℕ
zeros = replicate socket_buffer 0

pub record SocketBuffer : Type 0 where
  pub total_size : ℤ
  pub current_size : ℤ
  pub buffer : List ℕ

-- A SOCKET is an unsigned number, and -1 its largest value.
abbrev pub invalid_socket : ℕ
invalid_socket = 2 ^ 64 - 1

pub record SimpleSocket : Type 0 where
  pub server_sock : ℕ
  pub client_sock : ℕ
  pub recv_buffer_list : List SocketBuffer
  pub send_buffer_list : List SocketBuffer
  pub send_buffer : SocketBuffer
  pub recv_buffer : SocketBuffer

pub data Outcome {ℓ} (A : Type ℓ) : Type ℓ where
  done : A → Outcome A
  fault : Outcome A
  running : Outcome A

abbrev pub of_option {ℓ} : {A : Type ℓ} → Option A → Outcome A
of_option none = fault
of_option (some a) = done a

-- The constructors. (That of SimpleSocket leaves the sockets unset if WSAStartup fails.)
abbrev pub new_buffer : SocketBuffer
new_buffer = record { total_size = negsuc 0; current_size = pos 0; buffer = zeros }

unfoldable pub new_socket : SimpleSocket
new_socket = record {
  server_sock = invalid_socket;
  client_sock = invalid_socket;
  recv_buffer_list = [];
  send_buffer_list = [];
  send_buffer = new_buffer;
  recv_buffer = new_buffer;
}

-- `memcpy(dst, src, n)` between two arrays, with `n` an int.
unfoldable pub copy : List ℕ → List ℕ → ℤ → Option (List ℕ)
unfolding read write
copy dst src n = read src 0 (to_size n) >>= write dst 0

unfoldable pub send_packet : List ℕ → ℤ → SimpleSocket → Option SimpleSocket
unfolding copy
send_packet packet n s =
    if is_positive s.send_buffer.total_size
    then (copy zeros packet n >>= λ b. some (record s {
      send_buffer_list =
          s.send_buffer_list ++ (record { total_size = n; current_size = pos 0; buffer = b } ∷ []);
    }))
    else (copy s.send_buffer.buffer packet n >>= λ b.
        some
          (record s { send_buffer = record { total_size = n; current_size = pos 0; buffer = b } }))

-- What the argument of `recv_packet` receives, if there is a packet.
unfoldable pub recv_packet : SimpleSocket → Option (SocketBuffer × SimpleSocket)
recv_packet s = elim s.recv_buffer_list [
  | [] ↦ none
  | b ∷ bs ↦ some (b, record s { recv_buffer_list = bs })
]

pub send_done_list : List SocketBuffer → SimpleSocket → Option SimpleSocket
unfolding copy
send_done_list [] s = some (record s { send_buffer = new_buffer })
send_done_list (b ∷ bs) s = copy s.send_buffer.buffer b.buffer b.total_size >>= λ c.
    some (record s {
      send_buffer = record { total_size = b.total_size; current_size = pos 0; buffer = c };
      send_buffer_list = bs;
    })

unfoldable pub send_done : SimpleSocket → Option SimpleSocket
unfolding send_done_list
send_done s = send_done_list s.send_buffer_list s

-- The bytes that are offered to `send`.
unfoldable pub offered : SimpleSocket → Option (List ℕ)
unfolding read
offered s =
    read s.send_buffer.buffer (to_size s.send_buffer.current_size)
      (to_size (sub_int s.send_buffer.total_size s.send_buffer.current_size))

same_int : ℤ → ℤ → Bool
same_int a b = to_size a == to_size b

-- What becomes of the send buffer when `send` has returned `n`.
unfoldable pub advance : ℤ → SimpleSocket → Option SimpleSocket
unfolding send_done same_int
advance n s =
    if same_int s.send_buffer.total_size (add_int s.send_buffer.current_size n)
    then send_done s
    else some (record s {
      send_buffer = record {
        total_size = s.send_buffer.total_size;
        current_size = add_int s.send_buffer.current_size n;
        buffer = s.send_buffer.buffer;
      };
    })

-- The part of `UpdateServer` that sends, with what `send` returns.
unfoldable pub update_sending : (List ℕ → ℤ) → SimpleSocket → Option SimpleSocket
unfolding offered advance
update_sending send s =
    if is_positive s.send_buffer.total_size
    then (offered s >>= λ bytes. advance (send bytes) s)
    else some s

-- The bytes that are left over are copied to an array that nothing reads.
unfoldable pub copy_rest : List ℕ → ℕ → ℤ → Option (List ℕ)
unfolding read write
copy_rest buffer at left =
    if is_positive left then (read buffer at (to_size left) >>= write zeros 0) else some []

-- One packet is taken from the buffer: a round of the loop of `RecvDone` that does not break.
unfoldable pub take_packet : ℤ → SimpleSocket → Option SimpleSocket
unfolding copy copy_rest
take_packet size s = do
  b ← copy zeros s.recv_buffer.buffer size
  let left = sub_int s.recv_buffer.total_size size
  rest ← copy_rest s.recv_buffer.buffer (to_size size) left
  some (record s {
    recv_buffer_list =
        s.recv_buffer_list ++ (record { total_size = size; current_size = pos 0; buffer = b } ∷ []);
    recv_buffer = record {
      total_size = left;
      current_size = s.recv_buffer.current_size;
      buffer = s.recv_buffer.buffer;
    };
  })

-- sizeof(int) + sizeof(char) + dataSize, a size_t, from the first four bytes of the buffer.
unfoldable pub packet_size : List ℕ → Option ℕ
unfolding read
packet_size buffer =
    read buffer 0 4 >>= λ h. some ((5 + to_size (int_of_bits (uint32_of h))) % 2 ^ 64)

-- `RecvDone`, with a bound on the rounds of its loop.
unfoldable pub recv_done : ℕ → SimpleSocket → Outcome SimpleSocket
unfolding take_packet packet_size
recv_done zero s = running
recv_done (suc fuel) s = elim (leb 5 (to_size s.recv_buffer.total_size)) [
  | false ↦ done s
  | true ↦ elim (packet_size s.recv_buffer.buffer) [
    | none ↦ fault
    | some need ↦ elim (leb need (to_size s.recv_buffer.total_size)) [
      | false ↦ done s
      | true ↦ elim (take_packet (int_of_size need) s) [ none ↦ fault | some t ↦ recv_done fuel t ]
    ]
  ]
]

-- The bytes that have come are copied behind the `start` bytes that are counted.
unfoldable pub place : ℕ → ℤ → List ℕ → SimpleSocket → Outcome SimpleSocket
unfolding recv_done write
place fuel start bytes s = elim (write s.recv_buffer.buffer (to_size start) bytes) [
  | none ↦ fault
  | some b ↦ recv_done fuel (record s {
    recv_buffer = record {
      total_size = add_int start (pos (length bytes));
      current_size = s.recv_buffer.current_size;
      buffer = b;
    };
  })
]

-- The branch of `UpdateServer` for what `recv` returned: nothing or an error closes the client.
unfoldable pub on_received : ℕ → List ℕ → SimpleSocket → Outcome SimpleSocket
unfolding place
on_received fuel [] s = done (record s { client_sock = invalid_socket })
on_received fuel (x ∷ xs) s =
    if is_positive s.recv_buffer.total_size
    then place fuel s.recv_buffer.total_size (x ∷ xs) s
    else place fuel (pos 0) (x ∷ xs) s

-- `UpdateServer` once a client is connected: what `recv` gives if `select` says that there is
-- something to read, and what `send` takes. `select` may fail. A client that is closed ends the call.
unfoldable pub update_connected :
    ℕ → Bool → Option (List ℕ) → (List ℕ → ℤ) → SimpleSocket → Outcome SimpleSocket
unfolding on_received update_sending
update_connected fuel select_fails received send s =
    if select_fails then done s else elim received [
      | none ↦ of_option (update_sending send s)
      | some [] ↦ on_received fuel [] s
      | some (x ∷ xs) ↦ elim (on_received fuel (x ∷ xs) s) [
        | done t ↦ of_option (update_sending send t)
        | fault ↦ fault
        | running ↦ running
      ]
    ]

-- `CloseServer`, with the sockets that it hands to `closesocket`.
unfoldable pub close_server : SimpleSocket → List ℕ × SimpleSocket
close_server s = (
  (if ltb 0 s.server_sock then s.server_sock ∷ [] else [])
      ++ (if ltb 0 s.client_sock then s.client_sock ∷ [] else []),
  record s {
    server_sock = if ltb 0 s.server_sock then invalid_socket else s.server_sock;
    client_sock = if ltb 0 s.client_sock then invalid_socket else s.client_sock;
  },
)

unfoldable pub un_init : SimpleSocket → List ℕ × SimpleSocket
unfolding close_server
un_init s =
    let (closed, t) = close_server s in
    (closed, record t { recv_buffer_list = []; send_buffer_list = [] })
