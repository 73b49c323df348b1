-- ===== src/Client.antt =====
-- boost_asio_olc/NetCommon/net_client.h and boost_asio_olc/NetClient/SimpleClient.cpp: a client with
-- one connection, and the chat client. The queue of incoming messages is that of the connection while
-- there is one. Lifetime has the context and its thread.
pub mod Chat
pub mod Pinging
pub mod Printing
pub mod Leaving
pub mod Lifetime
pub mod Wire
pub mod Greeting
use network_study.Prelude.{
  ℕ, suc, ◌-◌, ◌^◌, ltb, Bool, true, false, not, ◌&&◌, List, [], ◌∷◌, ◌++◌, Option, none, some,
  ◌>>=◌, if◌then◌else◌,
}
use network_study.Bytes.{uint32_of}
use network_study.Prelude.Int.{ℤ, pos, negsuc}
use network_study.Message.{sub_size, Message, new_message, push, pull}
use network_study.Connection.{
  client, OwnedMessage, Connection, new_connection, connect_to_server, disconnect, is_connected,
  send,
}
use network_study.SimpleServer.{
  CustomMsgTypes, server_accept, server_deny, server_ping, message_all, server_message,
}

pub record Client {ℓ} (T : Type ℓ) : Type ℓ where
  pub connection : Option (Connection T)
  pub recv_deq : List (OwnedMessage T)

module _ {ℓ} {T : Type ℓ} where
  abbrev pub incoming : Client T → List (OwnedMessage T)
  incoming c = elim c.connection [ none ↦ c.recv_deq | some x ↦ x.recv_deq ]

  -- `Connect`, with whether the address resolves and whether the socket opens at once. `no_id` is
  -- the id of a message that has not been set.
  unfoldable pub connect : T → Bool → Bool → Client T → Bool × Client T
  unfolding connect_to_server new_connection
  connect no_id resolves opened c =
      if resolves
      then (
        true,
        record {
          connection =
              some (connect_to_server opened (new_connection client 0 false (incoming c) no_id));
          recv_deq = incoming c;
        },
      )
      else (false, c)

  unfoldable pub is_connected_to_server : Client T → Bool
  unfolding is_connected
  is_connected_to_server c = elim c.connection [ none ↦ false | some x ↦ is_connected x ]

  -- `Disconnect`, with the connection that `release` gives up and nothing destroys.
  unfoldable pub disconnect_from_server : Client T → Option (Connection T) × Client T
  unfolding disconnect
  disconnect_from_server c = elim c.connection [
    | none ↦ (none, c)
    | some x ↦ (some (disconnect x), record { connection = none; recv_deq = x.recv_deq })
  ]

  unfoldable pub send_to_server : Message T → Client T → Client T
  unfolding is_connected send
  send_to_server msg c = elim c.connection [
    | none ↦ c
    | some x ↦ if is_connected x then record c { connection = some (send msg x) } else c
  ]

  -- `Incoming().pop_front()` on a queue that is not empty.
  unfoldable pub rest_of : List (OwnedMessage T) → Client T → Client T
  rest_of rest c = elim c.connection [
    | none ↦ record c { recv_deq = rest }
    | some x ↦ record c { connection = some (record x { recv_deq = rest }) }
  ]

-- What the chat client prints.
pub data Line : Type 0 where
  accepted : Line
  pinged : (ticks : ℤ) → Line  -- the time since the ping was sent
  hello : (client_id : ℕ) → Line
  server_down : Line

-- `PingServer`, with the bytes of the clock.
unfoldable pub ping_server : List ℕ → Client CustomMsgTypes → Option (Client CustomMsgTypes)
unfolding push send_to_server
ping_server now c = push (new_message server_ping) now >>= λ msg. some (send_to_server msg c)

unfoldable pub client_message_all : Client CustomMsgTypes → Client CustomMsgTypes
unfolding send_to_server
client_message_all c = send_to_server (new_message message_all) c

-- `timeNow - timeThen`: a time point is an int64_t, by its bytes. The difference is the one of 64 bits.
abbrev pub elapsed : List ℕ → List ℕ → ℤ
elapsed time_now time_then =
    let d = sub_size (uint32_of time_now) (uint32_of time_then) in
    if ltb d (2 ^ 63) then pos d else negsuc (2 ^ 64 - suc d)

-- The switch on a message, with the clock when it is read. A time point has eight bytes, a client's id
-- four.
unfoldable pub print_message : List ℕ → Message CustomMsgTypes → Option (List Line)
unfolding pull
print_message time_now msg = elim msg.header.id [
  | server_accept ↦ some (accepted ∷ [])
  | server_ping ↦ pull 8 msg >>= λ r. some (pinged (elapsed time_now r.0) ∷ [])
  | server_message ↦ pull 4 msg >>= λ r. some (hello (uint32_of r.0) ∷ [])
  | _ ↦ some []
]

handle_first :
    List ℕ
    → List (OwnedMessage CustomMsgTypes)
    → Client CustomMsgTypes
    → Option (List Line × Client CustomMsgTypes)
unfolding print_message rest_of
handle_first time_now [] c = some ([], c)
handle_first time_now (m ∷ ms) c =
    print_message time_now m.msg >>= λ lines. some (lines, rest_of ms c)

-- The end of the loop of main: what is printed, and whether the server is down, which ends it.
unfoldable pub read_incoming :
    List ℕ → Client CustomMsgTypes → Option (Bool × List Line × Client CustomMsgTypes)
unfolding is_connected_to_server handle_first
read_incoming time_now c =
    if is_connected_to_server c
    then (handle_first time_now (incoming c) c >>= λ r. some (false, r.0, r.1))
    else some (true, server_down ∷ [], c)

pub record Keys : Type 0 where
  pub key_1 : Bool
  pub key_2 : Bool
  pub key_3 : Bool

-- A round of the loop of main, with the keys that are down, those that were down before, and the clock
-- when a ping is sent and when a message is read: whether the loop ends, what is printed, and the client.
unfoldable pub main_round :
    Keys
    → Keys
    → List ℕ
    → List ℕ
    → Client CustomMsgTypes
    → Option (Bool × List Line × Client CustomMsgTypes)
unfolding ping_server client_message_all read_incoming
main_round key old_key now read_at c = do
  pinging ← (if key.key_1 && not old_key.key_1 then ping_server now c else some c)
  let asked = if key.key_2 && not old_key.key_2 then client_message_all pinging else pinging
  r ← read_incoming read_at asked
  some ((if key.key_3 && not old_key.key_3 then true else r.0), r.1, r.2)

-- What one round of main meets: whether its window is in front, the keys that are down, the clock at its two
-- calls, and what the thread of asio has done to the connection since the last round: the messages that it has
-- queued, and whether it has closed the socket.
pub record Round : Type 0 where
  pub focused : Bool
  pub down : Keys
  pub now : List ℕ
  pub read_at : List ℕ
  pub came : List (OwnedMessage CustomMsgTypes)
  pub closes : Bool

unfoldable pub meanwhile : Round → Client CustomMsgTypes → Client CustomMsgTypes
meanwhile r c = elim c.connection [
  | none ↦ c
  | some x ↦ record c {
    connection = some (record x {
      recv_deq = x.recv_deq ++ r.came;
      is_open = if r.closes then false else x.is_open;
    });
  }
]

-- The loop of main, over some rounds, from the keys of the round before: whether it has ended, what has
-- been printed, and the client. The keys are read only while the window is in front.
unfoldable pub main_loop :
    List Round → Keys → Client CustomMsgTypes → Option (Bool × List Line × Client CustomMsgTypes)
unfolding main_round meanwhile
main_loop [] old_key c = some (false, [], c)
main_loop (r ∷ rounds) old_key c =
    let key = if r.focused then r.down else old_key in
    main_round key old_key r.now r.read_at (meanwhile r c) >>= λ p. elim p.0 [
      | true ↦ some p
      | false ↦ main_loop rounds key p.2 >>= λ q. some (q.0, p.1 ++ q.1, q.2)
    ]

-- main: the result of `Connect` is not looked at.
unfoldable pub chat_main :
    Bool → Bool → List Round → Option (Bool × List Line × Client CustomMsgTypes)
unfolding connect main_loop
chat_main resolves opened rounds =
    let no_keys : Keys = record { key_1 = false; key_2 = false; key_3 = false } in
    main_loop rounds no_keys
      (connect server_accept resolves opened (record { connection = none; recv_deq = [] })).1
