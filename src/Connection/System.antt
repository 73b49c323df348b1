-- ===== src/Connection/System.antt =====
-- A connection of net_connection.h in its surroundings: the threads that call it, the io_context
-- that runs its handlers in any order that asio allows, and the two byte streams of its socket.
use network_study.Prelude.{
  ℕ, suc, ◌≡◌, Bool, true, false, List, [], ◌∷◌, ◌++◌, Option, none, some, leb, if◌then◌else◌,
  length, take, drop,
}
use network_study.Message.{Message}
use network_study.Connection.{
  Codec, Owner, OwnedMessage, Post, post_send, post_close, WriteOp, writing_header, writing_body,
  ReadOp, reading_header, reading_body, Connection, new_connection, close, on_read_header,
  on_read_body, on_connect, connect_to_client, connect_to_server, disconnect, send, on_write_header,
  on_write_body, on_send,
}

-- The stream that has gone out and the one that has come in and is not yet read.
-- `accepted` records the messages of the `Send` handlers that have run.
pub record Net {ℓ} (T : Type ℓ) : Type ℓ where
  pub peer : Connection T
  pub out : List ℕ
  pub input : List ℕ
  pub accepted : List (Message T)
  pub failed : Bool  -- whether a write has failed

module _ {ℓ} {T : Type ℓ} (codec : Codec T) where
  -- asio completes a read when the stream holds as many bytes as its buffer takes, fills the buffer
  -- and runs the handler.
  unfoldable pub complete_read : ReadOp → Connection T → List ℕ → Option (Connection T × List ℕ)
  unfolding on_read_header on_read_body
  complete_read reading_header c input =
      if leb codec.header_size (length input)
      then some (
        on_read_header false (record c {
          temp_msg = record {
            header = codec.decode (take codec.header_size input);
            body = c.temp_msg.body;
          };
        }),
        drop codec.header_size input,
      )
      else none
  complete_read (reading_body n) c input =
      if leb n (length input)
      then some (
        on_read_body false
            (record c { temp_msg = record { header = c.temp_msg.header; body = take n input } }),
        drop n input,
      )
      else none

  unfoldable pub read_ops : List ReadOp → Connection T → List ℕ → Option (Connection T × List ℕ)
  unfolding complete_read
  read_ops [] c input = none
  read_ops (op ∷ ops) c input = complete_read op (record c { reads = ops }) input

  -- The oldest read completes.
  unfoldable pub read_step : Connection T → List ℕ → Option (Connection T × List ℕ)
  unfolding read_ops
  read_step c input = read_ops c.reads c input

  -- The handler of a read that failed.
  unfoldable pub fail_read : ReadOp → Connection T → Connection T
  unfolding on_read_header on_read_body
  fail_read reading_header c = on_read_header true c
  fail_read (reading_body n) c = on_read_body true c

  -- One event at the connection. The handler of an operation that failed may run with part of its
  -- buffer sent (`k` bytes) or filled (`t`).
  pub data Step (s : Net T) : Net T → Type ℓ where
    sends : (msg : Message T) → Step s (record s { peer = send msg s.peer })
    disconnects : Step s (record s { peer = disconnect s.peer })
    accepts : (uid : ℕ) → Step s (record s { peer = connect_to_client uid s.peer })
    connects : (opened : Bool) → Step s (record s { peer = connect_to_server opened s.peer })
    arrive : (bytes : List ℕ) → Step s (record s { input = s.input ++ bytes })
    connected :
        {n : ℕ} (ec : Bool)
        → s.peer.connecting ≡ suc n
        → Step s (record s { peer = on_connect ec (record s.peer { connecting = n }) })
    run_send :
        {msg : Message T} {ps : List (Post T)} {c : Connection T}
        → s.peer.posts ≡ post_send msg ∷ ps
        → on_send codec msg (record s.peer { posts = ps }) ≡ some c
        → Step s (record s { peer = c; accepted = s.accepted ++ (msg ∷ []) })
    run_close :
        {ps : List (Post T)}
        → s.peer.posts ≡ post_close ∷ ps
        → Step s (record s { peer = close (record s.peer { posts = ps }) })
    wrote_header :
        {b : List ℕ} {ws : List WriteOp} {c : Connection T}
        → s.peer.writes ≡ writing_header b ∷ ws
        → on_write_header codec false (record s.peer { writes = ws }) ≡ some c
        → Step s (record s { peer = c; out = s.out ++ b })
    wrote_body :
        {b : List ℕ} {ws : List WriteOp} {c : Connection T}
        → s.peer.writes ≡ writing_body b ∷ ws
        → on_write_body codec false (record s.peer { writes = ws }) ≡ some c
        → Step s (record s { peer = c; out = s.out ++ b })
    header_failed :
        {b : List ℕ} {ws : List WriteOp} {c : Connection T} (k : ℕ)
        → s.peer.writes ≡ writing_header b ∷ ws
        → on_write_header codec true (record s.peer { writes = ws }) ≡ some c
        → Step s (record s { peer = c; out = s.out ++ take k b; failed = true })
    body_failed :
        {b : List ℕ} {ws : List WriteOp} {c : Connection T} (k : ℕ)
        → s.peer.writes ≡ writing_body b ∷ ws
        → on_write_body codec true (record s.peer { writes = ws }) ≡ some c
        → Step s (record s { peer = c; out = s.out ++ take k b; failed = true })
    read :
        {c : Connection T} {rest : List ℕ}
        → read_step s.peer s.input ≡ some (c, rest)
        → Step s (record s { peer = c; input = rest })
    read_failed :
        {op : ReadOp} {rs : List ReadOp} (t : Message T)
        → s.peer.reads ≡ op ∷ rs
        → Step s (record s { peer = fail_read op (record s.peer { reads = rs; temp_msg = t }) })

  -- A connection as the constructor leaves it, nothing sent and nothing received.
  abbrev pub fresh : Owner → ℕ → Bool → List (OwnedMessage T) → T → Net T
  fresh parent self is_open q_in no_id = record {
    peer = new_connection parent self is_open q_in no_id;
    out = [];
    input = [];
    accepted = [];
    failed = false;
  }

  pub data Reach (s : Net T) : Net T → Type ℓ where
    here : Reach s s
    next : {t u : Net T} → Reach s t → Step t u → Reach s u
