-- ===== src/Tests/Wires.antt =====
-- A ping from a chat client to the place of its connection in a server, and back; a chat of two clients.
use network_study.Prelude.{
  ℕ, ◌≡◌, ◌≢◌, ◌==◌, if◌then◌else◌, refl, arith, true, false, List, [], ◌∷◌, some,
}
use network_study.Connection.{client, Connection, new_connection}
use network_study.Prelude.Int.{pos}
use network_study.Server.{Server}
use network_study.SimpleServer.{CustomMsgTypes, server_accept}
use network_study.SimpleServer.Codec.{codec}
use network_study.Client.{pinged, hello}
use network_study.Client.Chat.{linked}
use network_study.Room.{Room, Request, pings, greets, chat, Quiet}
use network_study.Room.Chatting.{chat_lem}
use network_study.Client.Wire.{at_rest, end_at, round_trip, ping_over_wire}

abbrev made : Connection CustomMsgTypes
unfolding new_connection
made = new_connection client 0 true [] server_accept

abbrev ticks : List ℕ
ticks = 8 ∷ 7 ∷ 6 ∷ 5 ∷ 4 ∷ 3 ∷ 2 ∷ 1 ∷ []

-- 258 ticks after that.
abbrev later : List ℕ
later = 10 ∷ 8 ∷ 6 ∷ 5 ∷ 4 ∷ 3 ∷ 2 ∷ 1 ∷ []

abbrev resting : Server CustomMsgTypes
resting = record {
  messages_in = [];
  connections = some 0 ∷ some 1 ∷ [];
  heap = λ q. end_at q (record made { id = if q == 1 then 10001 else 10000 });
  next_place = 2;
  id_counter = 10002;
  accepting = 1;
}

ping_over_wire_example :
    (y d : Connection CustomMsgTypes) × (t : Server CustomMsgTypes) × (round_trip codec 1 ticks
        later
        (at_rest made)
        resting
      ≡ some ((false, pinged (pos 258) ∷ [], linked (record (at_rest y) { recv_deq = [] })), t))
    × (t.heap 1 ≡ end_at 1 d)
    × (d.id ≡ 10001)
    × ((q : ℕ) → q ≢ 1 → t.heap q ≡ resting.heap q)
    × (t ≡ record resting { heap = t.heap })
unfolding new_connection
ping_over_wire_example =
    ping_over_wire codec 1 ticks later made (record made { id = 10001 }) resting
      (refl, omega arith, omega arith) refl refl

abbrev ids : ℕ → ℕ
ids q = if q == 1 then 10001 else 10000

abbrev full : Room
full = record { clients = λ q. at_rest made; server = resting }

full-Quiet : Quiet ids (0 ∷ 1 ∷ []) full
unfolding new_connection
full-Quiet = record {
  ends = λ q e. (made, record made { id = ids q }, refl, refl, refl);
  listed = refl;
  none_waits = refl;
}

abbrev evening : List Request
evening = greets 1 (λ q. ticks) ∷ pings 0 ticks later ∷ greets 0 (λ q. later) ∷ []

chat_lem_example :
    (t : Room) × (chat codec (0 ∷ 1 ∷ []) evening full
      ≡ some ((0, hello 10001) ∷ (0, pinged (pos 258)) ∷ (1, hello 10000) ∷ [], t))
    × Quiet ids (0 ∷ 1 ∷ []) t
chat_lem_example =
    chat_lem codec ids (0 ∷ 1 ∷ []) evening full (λ p. ground arith) (λ p. ground arith)
      (refl, ((refl, (refl, omega arith, omega arith)), (refl, tt))) full-Quiet
