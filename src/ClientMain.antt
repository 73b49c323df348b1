-- ===== src/ClientMain.antt =====
-- Client.cpp: a client that sends the time in every round of its loop. The calls that it makes outside
-- are listed in the order in which they are made. The upper part of the file is commented out.
pub mod Rounds
use network_study.Prelude.{
  ℕ, ◌==◌, Bool, true, false, List, [], ◌∷◌, ◌++◌, Option, none, some, if◌then◌else◌, replicate,
}
use network_study.Prelude.Int.{ℤ, is_positive, to_size}
use network_study.Bytes.{read, write, has_end}
use network_study.MemDb.{Str}
use network_study.Select.{Flow, go, ret, fault, running, then_flow}
use network_study.SimpleSocket.{invalid_socket}

pub data Event : Type 0 where
  error : Event
  free_addresses : Event
  cleaned_up : Event
  exited : Event
  closed : (sock : ℕ) → Event
  printed : (buffer : List ℕ) → Event
  sent : (buffer : List ℕ) → Event
  reported : (time : Str) → Event

-- The two functions `shoutError`, which end the program.
abbrev pub shout_error : List Event
shout_error = error ∷ cleaned_up ∷ exited ∷ []

abbrev pub shout_error_and_close : ℕ → List Event
shout_error_and_close sock = error ∷ free_addresses ∷ closed sock ∷ cleaned_up ∷ exited ∷ []

-- BUFFER_SIZE of Client.cpp
abbrev pub buffer_size : ℕ
buffer_size = 2048

-- A buffer that `ZeroMemory` has cleared.
unfoldable pub cleared : List ℕ
cleared = replicate buffer_size 0

-- A SocketBuffer that is made from memory: as many bytes as a buffer has are copied.
unfoldable socket_buffer_of : List ℕ → Option (List ℕ)
unfolding read
socket_buffer_of buf = read buf 0 buffer_size

-- `SendDone`, with what it leaves in the buffer. The pipe is handed over by value, so the one of the
-- caller is as before.
unfoldable pub send_done : List (List ℕ) → List ℕ
unfolding cleared
send_done [] = cleared
send_done (b ∷ []) = b
send_done (b ∷ c ∷ bs) = send_done (c ∷ bs)

-- What the calls before the loop return. The result of WSAStartup is compared with INVALID_SOCKET.
pub record Startup : Type 0 where
  pub startup : ℤ
  pub addresses_fail : Bool
  pub sock : ℕ
  pub connect_fails : Bool

-- main up to the loop: the socket, or what was done before the program ended.
unfoldable pub start : Startup → Option ℕ × List Event
start c =
    if to_size c.startup == invalid_socket
    then (none, shout_error)
    else if c.addresses_fail
    then (none, shout_error)
    else if c.sock == invalid_socket
    then (none, shout_error_and_close c.sock)
    else if c.connect_fails
    then (none, shout_error_and_close c.sock)
    else (some c.sock, [])

-- What the calls return in one round: `select` and whether the socket is in its set, the bytes of `recv`
-- (none of them at the end and after an error), the text of the time with what lies behind it in
-- memory, and `send`.
pub record Round : Type 0 where
  pub select_fails : Bool
  pub readable : Bool
  pub received : List ℕ
  pub time : Str
  pub beyond : List ℕ
  pub send_result : ℤ

-- A text is printed up to its end, which must be in the buffer.
unfoldable pub print_received : List ℕ → List Event → Flow (List Event)
unfolding write cleared
print_received [] events = go events
print_received (x ∷ xs) events = elim (write cleared 0 (x ∷ xs)) [
  | none ↦ fault
  | some b ↦ if has_end b then go (events ++ (printed b ∷ [])) else fault
]

-- The branch of a socket that can be read.
unfoldable pub receive : Round → List Event → Flow (List Event)
unfolding print_received
receive r events = if r.readable then print_received r.received events else go events

-- The buffer that is sent: `sizeof(str)` bytes from the text on.
unfoldable pub time_buffer : ℕ → Round → Option (List ℕ)
unfolding read write cleared
time_buffer string_size r = elim (read (r.time ++ (0 ∷ r.beyond)) 0 string_size) [
  | none ↦ none
  | some bytes ↦ write cleared 0 bytes
]

unfoldable pub send_time : ℕ → Round → List Event → Flow (List Event)
unfolding time_buffer
send_time string_size r events = elim (time_buffer string_size r) [
  | none ↦ fault
  | some b ↦
      go (events ++ (sent b ∷ (if is_positive r.send_result then reported r.time ∷ [] else [])))
]

-- A round of the loop, with what was done so far; the program returns only by `exit`.
unfoldable pub one_round : ℕ → ℕ → Round → List Event → Flow (List Event)
unfolding receive send_time
one_round string_size sock r events =
    if r.select_fails
    then ret (events ++ shout_error_and_close sock)
    else then_flow (receive r events) (send_time string_size r)

-- Some rounds; with `go` the loop goes on after them.
unfoldable pub run : ℕ → ℕ → List Round → List Event → Flow (List Event)
unfolding one_round
run string_size sock [] events = go events
run string_size sock (r ∷ rounds) events =
    then_flow (one_round string_size sock r events) (run string_size sock rounds)
