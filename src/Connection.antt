-- ===== src/Connection.antt =====
-- boost_asio_olc/NetCommon/net_connection.h: one end of a connection, and what asio's io_context
-- holds for it. A handler runs on the io_context's one thread and returns the new state; `none` is
-- the undefined behaviour of a read at an empty queue.
-- asio itself and the socket are not modelled: which operation completes, when and with which error
-- is chosen by the steps of `Connection.System`.
pub mod System
pub mod Writing
pub mod Sending
pub mod Reading
pub mod Receiving
pub mod Handlers
pub mod Returning
pub mod Filling
pub mod Exchange
use network_study.Prelude.{
  ℕ, ◌+◌, ◌^◌, ◌≤◌, ◌<◌, ◌≡◌, Bool, true, false, not, List, [], ◌∷◌, ◌++◌, Option, none, some,
  ◌>>=◌, ltb, leb, if◌then◌else◌, length, take, drop,
}
use network_study.Bytes.{resize}
use network_study.Message.{Header, Message, new_message}
use network_study.TsQueue.{front, pop_front, push_back, empty}

-- The bytes that a `message_header<T>` has in memory, as its platform lays it out.
pub record Codec {ℓ} (T : Type ℓ) : Type ℓ where
  pub header_size : ℕ
  pub encode : Header T → List ℕ
  pub decode : List ℕ → Header T
  pub length-encode : (h : Header T) → length (encode h) ≡ header_size
  pub decode-encode : (h : Header T) → h.size < 2 ^ 32 → decode (encode h) ≡ h

pub data Owner : Type 0 where
  server client : Owner

-- `remote` is the connection that a message came from, by its place in memory, or nullptr.
pub record OwnedMessage {ℓ} (T : Type ℓ) : Type ℓ where
  pub remote : Option ℕ
  pub msg : Message T

-- A handler that was posted to the context.
pub data Post {ℓ} (T : Type ℓ) : Type ℓ where
  post_send : Message T → Post T
  post_close : Post T

-- An `async_write` that has not completed, with the bytes of its buffer.
pub data WriteOp : Type 0 where
  writing_header writing_body : List ℕ → WriteOp

-- An `async_read` that has not completed; a body's buffer has the size given.
pub data ReadOp : Type 0 where
  reading_header : ReadOp
  reading_body : ℕ → ReadOp

pub record Connection {ℓ} (T : Type ℓ) : Type ℓ where
  pub self : ℕ  -- `shared_from_this()`
  pub is_open : Bool  -- m_socket.is_open()
  pub send_deq : List (Message T)
  pub recv_deq : List (OwnedMessage T)
  pub temp_msg : Message T
  pub owner_type : Owner
  pub id : ℕ
  pub posts : List (Post T)
  pub connecting : ℕ  -- `async_connect` calls that have not completed
  pub writes : List WriteOp
  pub reads : List ReadOp

-- The `remote` that a connection gives to what it receives.
abbrev pub remote_of : Owner → ℕ → Option ℕ
remote_of server self = some self
remote_of client self = none

module _ {ℓ} {T : Type ℓ} where
  -- The constructor; `no_id` is `T{}`.
  unfoldable pub new_connection : Owner → ℕ → Bool → List (OwnedMessage T) → T → Connection T
  new_connection parent self is_open q_in no_id = record {
    self = self;
    is_open = is_open;
    send_deq = [];
    recv_deq = q_in;
    temp_msg = new_message no_id;
    owner_type = parent;
    id = 0;
    posts = [];
    connecting = 0;
    writes = [];
    reads = [];
  }

  unfoldable pub get_id : Connection T → ℕ
  get_id c = c.id

  unfoldable pub is_connected : Connection T → Bool
  is_connected c = c.is_open

  -- `m_socket.close()`
  unfoldable pub close : Connection T → Connection T
  close c = record c { is_open = false }

  -- `ReadHeader`: the call, and its handler below.
  unfoldable pub read_header : Connection T → Connection T
  read_header c = record c { reads = c.reads ++ (reading_header ∷ []) }

  unfoldable pub read_body : Connection T → Connection T
  read_body c = record c { reads = c.reads ++ (reading_body (length c.temp_msg.body) ∷ []) }

  unfoldable pub add_to_incoming_message_queue : Connection T → Connection T
  unfolding push_back read_header
  add_to_incoming_message_queue c = read_header (record c {
    recv_deq =
        push_back c.recv_deq (record { remote = remote_of c.owner_type c.self; msg = c.temp_msg });
  })

  -- The handler of `ReadHeader`, with whether asio reports an error.
  unfoldable pub on_read_header : Bool → Connection T → Connection T
  unfolding close read_body add_to_incoming_message_queue
  on_read_header true c = close c
  on_read_header false c =
      if ltb 0 c.temp_msg.header.size
      then read_body (record c {
        temp_msg = record {
          header = c.temp_msg.header;
          body = resize c.temp_msg.body c.temp_msg.header.size;
        };
      })
      else add_to_incoming_message_queue c

  unfoldable pub on_read_body : Bool → Connection T → Connection T
  unfolding close add_to_incoming_message_queue
  on_read_body true c = close c
  on_read_body false c = add_to_incoming_message_queue c

  unfoldable pub connect_to_client : ℕ → Connection T → Connection T
  unfolding read_header
  connect_to_client uid c = elim c.owner_type [
    | server ↦ if c.is_open then read_header (record c { id = uid }) else c
    | client ↦ c
  ]

  -- `opened` says whether asio opens the socket when it begins to connect.
  unfoldable pub connect_to_server : Bool → Connection T → Connection T
  connect_to_server opened c = elim c.owner_type [
    | client ↦ record c { connecting = c.connecting + 1; is_open = opened }
    | server ↦ c
  ]

  unfoldable pub on_connect : Bool → Connection T → Connection T
  unfolding read_header
  on_connect true c = c
  on_connect false c = read_header c

  unfoldable pub disconnect : Connection T → Connection T
  unfolding is_connected
  disconnect c = if is_connected c then record c { posts = c.posts ++ (post_close ∷ []) } else c

  unfoldable pub send : Message T → Connection T → Connection T
  send msg c = record c { posts = c.posts ++ (post_send msg ∷ []) }

module _ {ℓ} {T : Type ℓ} (codec : Codec T) where
  unfoldable pub write_header : Connection T → Option (Connection T)
  unfolding front
  write_header c = do
    m ← front c.send_deq
    some (record c { writes = c.writes ++ (writing_header (codec.encode m.header) ∷ []) })

  unfoldable pub write_body : Connection T → Option (Connection T)
  unfolding front
  write_body c = do
    m ← front c.send_deq
    some (record c { writes = c.writes ++ (writing_body m.body ∷ []) })

  -- `m_sendDeq.pop_front()`, then the header of the next message, if there is one.
  unfoldable pub write_next : Connection T → Option (Connection T)
  unfolding write_header pop_front empty
  write_next c = do
    r ← pop_front c.send_deq
    let rest = record c { send_deq = r.1 }
    if not (empty r.1) then write_header rest else some rest

  unfoldable pub on_write_header : Bool → Connection T → Option (Connection T)
  unfolding front close write_body write_next
  on_write_header true c = some (close c)
  on_write_header false c = do
    m ← front c.send_deq
    if ltb 0 (length m.body) then write_body c else write_next c

  unfoldable pub on_write_body : Bool → Connection T → Option (Connection T)
  unfolding close write_next
  on_write_body true c = some (close c)
  on_write_body false c = write_next c

  -- The handler that `Send` posts.
  unfoldable pub on_send : Message T → Connection T → Option (Connection T)
  unfolding write_header push_back empty
  on_send msg c =
      let is_writing = not (empty c.send_deq) in
      let queued = record c { send_deq = push_back c.send_deq msg } in
      if not is_writing then write_header queued else some queued
