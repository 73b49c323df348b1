-- ===== src/Tests/Links.antt =====
-- A client that sends one message, and the end that receives it.
use network_study.Prelude.{
  ℕ, ◌≤◌, ◌≡◌, ◌≢◌, ◌↔◌, refl, true, false, List, [], ◌∷◌, ◌++◌, map, length, arith,
}
use network_study.Message.{Message, new_message}
use network_study.Connection.{
  server, client, writing_header, reading_header, Connection, new_connection, send, on_send,
  on_write_header, on_write_body,
}
use network_study.Connection.System.{
  Net, sends, run_send, wrote_header, wrote_body, fresh, here, next,
}
use network_study.Connection.Writing.{frame, frames}
use network_study.Connection.Sending.{Run, out_is_prefix, one_write}
use network_study.Connection.Reading.{receive, reads_of, landings, owned}
use network_study.Connection.Receiving.{receive-frames, transfer}
use network_study.SimpleServer.{CustomMsgTypes, server_accept, server_ping, message_all}
use network_study.SimpleServer.Codec.{codec}

abbrev ping : Message CustomMsgTypes
ping = record { header = record { id = server_ping; size = 2 }; body = 8 ∷ 9 ∷ [] }

abbrev all : Message CustomMsgTypes
all = new_message message_all

abbrev start : Net CustomMsgTypes
start = fresh codec client 0 true [] server_accept

-- The header of `ping` is on its way.
abbrev half_sent : Net CustomMsgTypes
half_sent = record start {
  peer = record (start.peer) {
    send_deq = ping ∷ [];
    writes = writing_header (codec.encode ping.header) ∷ [];
  };
  accepted = ping ∷ [];
}

abbrev all_sent : Net CustomMsgTypes
all_sent = record start { out = frame codec ping; accepted = ping ∷ [] }

half_sent-Run : Run codec client 0 true [] server_accept half_sent
unfolding new_connection send on_send
half_sent-Run = next (next here (sends ping)) (run_send refl refl)

all_sent-Run : Run codec client 0 true [] server_accept all_sent
unfolding new_connection on_write_header on_write_body
all_sent-Run = next (next half_sent-Run (wrote_header refl refl)) (wrote_body refl refl)

out_is_prefix_example :
    ((rest : List ℕ) × (all_sent.out ++ rest ≡ frames codec (ping ∷ [])))
    × (all_sent.peer.send_deq ≡ [] → all_sent.out ≡ frames codec (ping ∷ []))
out_is_prefix_example = out_is_prefix codec client 0 true [] server_accept all_sent all_sent-Run

one_write_example :
    (length half_sent.peer.writes ≤ 1)
    × (half_sent.failed ≡ false → (half_sent.peer.writes ≡ []) ↔ (half_sent.peer.send_deq ≡ []))
    × (half_sent.failed ≡ true → (half_sent.peer.writes ≡ []) × (half_sent.peer.send_deq ≢ []))
one_write_example = one_write codec client 0 true [] server_accept half_sent half_sent-Run

-- The other end waits for a header.
abbrev waiting : Connection CustomMsgTypes
waiting = record (new_connection server 3 true [] server_accept) { reads = reading_header ∷ [] }

receive-frames_example :
    let (d, left) =
      receive codec (reads_of (ping ∷ [])) waiting (frames codec (ping ∷ []) ++ (7 ∷ [])) in
    (d.recv_deq
      ≡ waiting.recv_deq ++ map (owned codec waiting) (landings waiting.temp_msg.body (ping ∷ [])))
    × (d.reads ≡ reading_header ∷ [])
    × (left ≡ 7 ∷ [])
receive-frames_example =
    receive-frames codec (ping ∷ []) waiting (7 ∷ []) refl ((refl, omega arith), tt)

transfer_example :
    let (d, left) = receive codec (reads_of (ping ∷ [])) waiting all_sent.out in
    (d.recv_deq ≡ waiting.recv_deq ++ map (owned codec waiting) (ping ∷ []))
    × (d.reads ≡ reading_header ∷ [])
    × (left ≡ [])
unfolding new_connection
transfer_example =
    transfer codec client 0 true [] server_accept all_sent waiting all_sent-Run refl
      ((refl, omega arith), tt) ((λ e. refl), tt) refl
