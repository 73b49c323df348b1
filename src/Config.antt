-- ===== src/Config.antt =====
-- main.cpp: the file config.txt, the thread that sends, and the console. TCP_Socket.cpp, the socket that the
-- address in that file is meant for.
pub mod Address
pub mod Console
use network_study.Prelude.{
  ℕ, zero, ◌+◌, ◌==◌, ◌||◌, Bool, true, false, List, [], ◌∷◌, ◌++◌, Option, none, some, ◌>>=◌,
  if◌then◌else◌, replicate, map, codes, leb, length, take, suc,
}
use network_study.Prelude.Int.{ℤ, pos, negsuc}
use network_study.Bytes.{c_string, read, write}
use network_study.MemDb.{Str, same_str, MemDb, get_value}
use network_study.SimpleSocket.{SimpleSocket, Outcome, done, fault, running, send_packet}
use network_study.SimpleSocket.Server.{Calls, construct, init_server, init, update_server, update}

-- How opening config.txt ends, and what `fgets` stores of it: nothing at the end of the file.
pub data ConfigFile : Type 0 where
  open_fails : ConfigFile
  null_stream : ConfigFile
  opened : (line : Option Str) → ConfigFile

abbrev pub without_newline : ℕ → ℕ
without_newline c = if (c == 10) || (c == 13) then 0 else c

-- An array of 32 characters, all 0, into which `fgets` has stored a line and its end.
unfoldable pub line_buffer : Option Str → Option (List ℕ)
unfolding write
line_buffer none = some (replicate 32 0)
line_buffer (some line) = write (replicate 32 0) 0 (line ++ (0 ∷ []))

-- `LoadConfig`, with the address before and after.
unfoldable pub load_config : ConfigFile → Str → Option Str
unfolding line_buffer
load_config open_fails address = some address
load_config null_stream address = some address
load_config (opened line) address =
    line_buffer line >>= λ addr. some (c_string (map without_newline addr))

-- The lambda `sendingPacket`, over what winsock returns in each round; `sizeof(hello)` is the size of a
-- pointer. `running` means that there are no more rounds to look at.
unfoldable pub sending_packet : ℕ → List ℕ → Bool → List Calls → SimpleSocket → Outcome SimpleSocket
unfolding send_packet update_server
sending_packet fuel message false rounds s = done s
sending_packet fuel message true [] s = running
sending_packet fuel message true (calls ∷ rounds) s = elim (send_packet message (pos 8) s) [
  | none ↦ fault
  | some t ↦ elim (update fuel calls t) [
    | done r ↦ sending_packet fuel message r.result rounds r.socket
    | fault ↦ fault
    | running ↦ running
  ]
]

abbrev pub hello : List ℕ
hello = codes "hello" ++ (0 ∷ [])

-- `__main`, up to the end of the sending thread: it starts with the result of an update of its own.
unfoldable main_socket :
    ℕ → Bool → ℕ → Bool → Calls → List Calls → SimpleSocket → Outcome SimpleSocket
unfolding construct init_server update_server sending_packet
main_socket fuel startup_fails sock bind_fails first rounds memory =
    let (ready, s) = init sock bind_fails (construct startup_fails memory) in
    if ready
    then elim (update fuel first s) [
      | done r ↦ sending_packet fuel hello r.result rounds r.socket
      | fault ↦ fault
      | running ↦ running
    ]
    else done s

-- `cin.getline(line, 16)`: the text, whether the stream has failed, and the lines that are left. A stream
-- that has failed gives the empty text, and so it does at its end; a line that does not fit makes it fail.
abbrev get_line : Bool → List Str → Str × Bool × List Str
get_line true lines = ([], true, lines)
get_line false [] = ([], true, [])
get_line false (line ∷ rest) =
    if leb (length line) 15 then (line, false, rest) else (take 15 line, true, rest)

-- The loop of `__main` over what is typed, up to the line "q": the number of prompts. `fuel` bounds its
-- rounds; it has no end once the stream has failed.
unfoldable pub console : ℕ → Bool → List Str → Outcome ℕ
unfolding same_str
console zero broken lines = running
console (suc fuel) broken lines =
    let (line, broken', rest) = get_line broken lines in
    let later = console fuel broken' rest in
    if same_str line (codes "q")
    then done 1
    else elim later [ done n ↦ done (n + 1) | fault ↦ fault | running ↦ running ]

-- TCP_Socket, with the address that `InetPtonW` is handed.
pub record TcpSocket : Type 0 where
  pub sock : ℤ
  pub server_address : Option Str

abbrev new_tcp_socket : TcpSocket
new_tcp_socket = record { sock = negsuc 0; server_address = none }

-- The address in the store, and else the one of the configuration.
unfoldable pub server_address_of : Str → MemDb → Str
unfolding get_value
server_address_of address db = elim (get_value (codes "serveraddress") db) [
  | [] ↦ address
  | c ∷ cs ↦ c ∷ cs
]

-- `Init`, with the result of `socket`. A failure of `setsockopt` is only logged.
unfoldable pub init_tcp : ℤ → Str → MemDb → TcpSocket → TcpSocket
unfolding server_address_of
init_tcp (negsuc zero) address db s = record s { sock = negsuc 0 }
init_tcp sock address db s = record {
  sock = sock;
  server_address = some (server_address_of address db);
}

-- `Connect`, with whether the call fails.
abbrev connect_tcp : Bool → Bool
connect_tcp fails = if fails then false else true

-- `Update` does nothing.
abbrev update_tcp : ℕ
update_tcp = 1

-- The bytes that `Send` hands to the call: TCP_BUFFER of them, whatever the buffer holds.
unfoldable send_tcp : List ℕ → Option (List ℕ)
unfolding read
send_tcp buffer = read buffer 0 8

-- `Recv` stores what has come, up to TCP_BUFFER bytes.
unfoldable recv_tcp : List ℕ → List ℕ → Option (List ℕ)
unfolding write
recv_tcp buffer bytes = write buffer 0 bytes
