-- ===== src/Server.antt =====
-- boost_asio_olc/NetCommon/net_server.h: the connections of a server, and what it does with them.
-- A `shared_ptr<connection<T>>` is an `Option ℕ`: nullptr, or a place in memory. The incoming queue
-- is one for all connections (each holds a reference to it), so it stands here.
-- `none` as a result is undefined behaviour, such as a call through nullptr.
pub mod Broadcast
pub mod Clients
pub mod Accept
pub mod Unicast
pub mod Dispatch
pub mod Lifetime
pub mod Listed
use network_study.Prelude.{
  ℕ, zero, suc, ◌+◌, ◌%◌, ◌^◌, Bool, true, false, not, ◌&&◌, List, [], ◌∷◌, ◌++◌, Option, none,
  some, ◌>>=◌, ◌==◌, if◌then◌else◌,
}
use network_study.Message.{Message, to_uint32}
use network_study.TsQueue.{pop_front, push_back, empty}
use network_study.Connection.{
  Owner, server, OwnedMessage, Connection, new_connection, is_connected, send, connect_to_client,
}

-- An object that the code writes in place.
abbrev pub update {ℓ} : {A : Type ℓ} → (ℕ → A) → ℕ → A → ℕ → A
update f p a q = if p == q then a else f q

abbrev pub ptr_eq : Option ℕ → Option ℕ → Bool
ptr_eq none none = true
ptr_eq none (some q) = false
ptr_eq (some p) none = false
ptr_eq (some p) (some q) = p == q

-- `erase(remove(begin, end, client), end)`
unfoldable pub erase_all : Option ℕ → List (Option ℕ) → List (Option ℕ)
erase_all client [] = []
erase_all client (c ∷ cs) =
    let rest = erase_all client cs in if ptr_eq c client then rest else c ∷ rest

pub record Server {ℓ} (T : Type ℓ) : Type ℓ where
  pub messages_in : List (OwnedMessage T)
  pub connections : List (Option ℕ)
  pub heap : ℕ → Connection T
  pub next_place : ℕ  -- the place of the next `make_shared`
  pub id_counter : ℕ  -- uint32_t
  pub accepting : ℕ  -- `async_accept` calls that have not completed

-- The virtual functions, as a subclass defines them.
pub record Callbacks {ℓ} (T : Type ℓ) : Type ℓ where
  pub on_client_connect : Option ℕ → Server T → Option (Bool × Server T)
  pub on_client_disconnect : Option ℕ → Server T → Option (Server T)
  pub on_message : Option ℕ → Message T → Server T → Option (Server T)

module _ {ℓ} {T : Type ℓ} where
  -- The members of the base class.
  abbrev pub base_callbacks : Callbacks T
  base_callbacks = record {
    on_client_connect = λ client s. some (false, s);
    on_client_disconnect = λ client s. some s;
    on_message = λ client msg s. some s;
  }

  -- The constructor; `objects` is the memory in which connections will be made.
  unfoldable pub new_server : (ℕ → Connection T) → Server T
  new_server objects = record {
    messages_in = [];
    connections = [];
    heap = objects;
    next_place = 0;
    id_counter = 10000;
    accepting = 0;
  }

  unfoldable pub wait_for_client_connection : Server T → Server T
  wait_for_client_connection s = record s { accepting = s.accepting + 1 }

  -- `Start`: the context's thread is started unless asio throws.
  unfoldable pub start : Bool → Bool → Server T → Bool × Server T
  unfolding wait_for_client_connection
  start throws thread_fails s =
      if throws then (false, s) else (not thread_fails, wait_for_client_connection s)

  -- A call of a method of the connection at a place.
  unfoldable pub on_object : ℕ → (Connection T → Connection T) → Server T → Server T
  on_object p f s = record s { heap = update s.heap p (f (s.heap p)) }

  -- A handler of a connection works on the incoming queue of the server.
  unfoldable pub on_shared : ℕ → (Connection T → Connection T) → Server T → Server T
  on_shared p f s =
      let c = f (record (s.heap p) { recv_deq = s.messages_in }) in
      record s { heap = update s.heap p c; messages_in = c.recv_deq }

  -- `client && client->IsConnected()`
  unfoldable pub alive : Option ℕ → Server T → Bool
  unfolding is_connected
  alive none s = false
  alive (some p) s = is_connected (s.heap p)

  -- `client->Send(msg)`
  unfoldable pub send_to : Option ℕ → Message T → Server T → Option (Server T)
  unfolding on_object send
  send_to none msg s = none
  send_to (some p) msg s = some (on_object p (send msg) s)

  -- The connection that the handler of `async_accept` makes.
  unfoldable pub make_connection : T → Server T → Server T
  unfolding new_connection
  make_connection no_id s = record s {
    heap = update s.heap s.next_place (new_connection server s.next_place true s.messages_in no_id);
    next_place = s.next_place + 1;
  }

  -- `m_deqConnections.push_back`, then `back()->ConnectToClient(nIDCounter++)`.
  unfoldable pub approve : ℕ → Server T → Server T
  unfolding on_object push_back connect_to_client
  approve p s = on_object p (connect_to_client s.id_counter) (record s {
    connections = push_back s.connections (some p);
    id_counter = to_uint32 (s.id_counter + 1);
  })

-- These call `OnClientDisconnect`, here `gone`.
module _ {ℓ} {T : Type ℓ} (gone : Option ℕ → Server T → Option (Server T)) where
  unfoldable pub message_client : Option ℕ → Message T → Server T → Option (Server T)
  unfolding alive send_to erase_all
  message_client client msg s = if alive client s then send_to client msg s else (do
    s' ← gone client s
    let reset : Option ℕ = none
    some (record s' { connections = erase_all reset s'.connections }))

  -- One round of the loop of `MessageAllClients`: the entry as it leaves it, and whether it was dead.
  unfoldable pub message_entry :
      Message T → Option ℕ → Option ℕ → Server T → Option (Option ℕ × Bool × Server T)
  unfolding alive send_to
  message_entry msg ignore client s =
      if alive client s
      then (if ptr_eq client ignore
          then some (client, false, s)
          else (send_to client msg s >>= λ s'. some (client, false, s')))
      else (gone client s >>= λ s'. some (none, true, s'))

  unfoldable pub message_entries :
      Message T → Option ℕ → List (Option ℕ) → Server T → Option (List (Option ℕ) × Bool × Server T)
  message_entries msg ignore [] s = some ([], false, s)
  message_entries msg ignore (client ∷ cs) s = do
    (client', dead, s') ← message_entry msg ignore client s
    (cs', deads, s'') ← message_entries msg ignore cs s'
    some (client' ∷ cs', if dead then true else deads, s'')

  unfoldable pub message_all_clients : Message T → Option ℕ → Server T → Option (Server T)
  message_all_clients msg ignore s = do
    (cs, invalid, s') ← message_entries msg ignore s.connections s
    let null : Option ℕ = none
    some (record s' { connections = if invalid then erase_all null cs else cs })

module _ {ℓ} {T : Type ℓ} (cb : Callbacks T) where
  -- The handler of `WaitForClientConnection`, with whether asio reports an error.
  unfoldable pub on_accept : T → Bool → Server T → Option (Server T)
  unfolding make_connection approve wait_for_client_connection
  on_accept no_id true s = some (wait_for_client_connection s)
  on_accept no_id false s = do
    r ← cb.on_client_connect (some s.next_place) (make_connection no_id s)
    some (wait_for_client_connection (if r.0 then approve s.next_place r.1 else r.1))

  -- The loop of `Update`, with the number of messages that it may still process.
  unfoldable pub update_loop : ℕ → Server T → Option (Server T)
  update_loop zero s = some s
  update_loop (suc n) s = elim (empty s.messages_in) [
    | true ↦ some s
    | false ↦ do
      (m, rest) ← pop_front s.messages_in
      s' ← cb.on_message m.remote m.msg (record s { messages_in = rest })
      update_loop n s'
  ]
