-- ===== src/Client/Wire.antt =====
-- A ping from the chat client to the chat server and back, over the wire (SimpleClient.cpp,
-- SimpleServer.cpp, net_connection.h).
use network_study.Prelude.{
  ℕ, ◌≡◌, refl, sym, ap, ap₂, ◌∙◌, Bool, true, false, List, [], ◌∷◌, ◌++◌, Option, some, ◌>>=◌, ◌≢◌,
  length, ltb, lt→ltb, arith, ==_self, ◌==◌,
}
use network_study.Message.{Message}
use network_study.Connection.{Codec, server, remote_of, Connection, reading_header, send}
use network_study.Connection.Reading.{Fits, receive, reads_of, landed}
use network_study.Connection.Writing.{frame}
use network_study.Connection.Exchange.{send_one, send_one_lem, receive-frame}
use network_study.Server.{Server, update, on_shared, update_loop}
use network_study.SimpleServer.{CustomMsgTypes, custom_server}
use network_study.Client.{Client, Line, pinged, ping_server, read_incoming}
use network_study.Client.Chat.{linked}
use network_study.Prelude.Int.{pos}
use network_study.Client.Pinging.{Clocks, between, ping_at, post_ping, answer, read_ping}

-- A connection that is open and at rest: nothing is to be sent, and it waits for a header.
abbrev pub at_rest : Connection CustomMsgTypes → Connection CustomMsgTypes
at_rest c = record c {
  is_open = true;
  posts = [];
  send_deq = [];
  writes = [];
  reads = reading_header ∷ [];
}

-- The end of the server at a place.
abbrev pub end_at : ℕ → Connection CustomMsgTypes → Connection CustomMsgTypes
end_at p c = record (at_rest c) { owner_type = server; self = p }

module _ (codec : Codec CustomMsgTypes) where
  -- Key 1 goes down at a client: its handlers send the ping, the reads of the server complete, `Update`
  -- takes one message, the handlers of the server send what it has posted, the reads of the client
  -- complete, and its loop looks at what has come.
  abbrev pub round_trip :
      ℕ
      → List ℕ
      → List ℕ
      → Connection CustomMsgTypes
      → Server CustomMsgTypes
      → Option ((Bool × List Line × Client CustomMsgTypes) × Server CustomMsgTypes)
  round_trip p now later x s = do
    asking ← ping_server now (linked x)
    sender ← asking.connection
    (request, waiting) ← send_one codec sender
    reached ← some (on_shared p (λ c. (receive codec 2 c request).0) s)
    answered ← update_loop custom_server 1 reached
    (reply, peer) ← send_one codec (answered.heap p)
    seen ← read_incoming later (linked (receive codec 2 waiting reply).0)
    some (seen, record answered { heap = update answered.heap p peer })

  -- A ping arrives at an end that waits for a header.
  abbrev landed_at : List ℕ → Connection CustomMsgTypes → Connection CustomMsgTypes
  landed_at now c = record c {
    reads = reading_header ∷ [];
    temp_msg = ping_at now;
    recv_deq =
        c.recv_deq ++ (record { remote = remote_of c.owner_type c.self; msg = ping_at now } ∷ []);
  }

  ping_arrives :
      (now : List ℕ) (c : Connection CustomMsgTypes)
      → length now ≡ 8
      → c.reads ≡ reading_header ∷ []
      → receive codec 2 c (frame codec (ping_at now)) ≡ (landed_at now c, [])
  ping_arrives now c e waits =
      let m = ping_at now in
      let more : ltb 0 (length now) ≡ true = lt→ltb 0 (length now) (omega (arith, e)) in
      let fits : Fits m = (omega (arith, e), omega (arith, e)) in
      let two : reads_of (m ∷ []) ≡ 2 = rw more refl in
      let whole : landed c.temp_msg.body m ≡ m = rw more refl in
      ap (λ n. receive codec n c (frame codec m)) (sym two)
      ∙ receive-frame codec c m waits fits
      ∙ ap
          (λ (n : Message CustomMsgTypes). (
            record c {
              reads = reading_header ∷ [];
              temp_msg = n;
              recv_deq =
                  c.recv_deq ++ (record { remote = remote_of c.owner_type c.self; msg = n } ∷ []);
            },
            [],
          ))
          whole

  -- The server, once the ping has come.
  abbrev reached_by :
      ℕ → List ℕ → Connection CustomMsgTypes → Server CustomMsgTypes → Server CustomMsgTypes
  reached_by p now c s = record s {
    heap = update s.heap p (landed_at now (record (end_at p c) { recv_deq = [] }));
    messages_in = record { remote = some p; msg = ping_at now } ∷ [];
  }

  ping_reaches :
      (p : ℕ) (now : List ℕ) (c : Connection CustomMsgTypes) (s : Server CustomMsgTypes)
      → length now ≡ 8
      → s.messages_in ≡ []
      → s.heap p ≡ end_at p c
      → on_shared p (λ d. (receive codec 2 d (frame codec (ping_at now))).0) s
        ≡ reached_by p now c s
  unfolding on_shared
  ping_reaches p now c s e none_waits rests =
      let got =
        λ (d : Connection CustomMsgTypes). (receive codec 2 d (frame codec (ping_at now))).0 in
      let result = λ (d : Connection CustomMsgTypes). record s {
        heap = update s.heap p d;
        messages_in = d.recv_deq;
      } in
      ap₂ (λ (d : Connection CustomMsgTypes) q. result (got (record d { recv_deq = q }))) rests
        none_waits
      ∙ ap (λ r. result r.0) (ping_arrives now (record (end_at p c) { recv_deq = [] }) e refl)

  -- What the server does with it.
  abbrev answering :
      ℕ → List ℕ → Connection CustomMsgTypes → Server CustomMsgTypes → Server CustomMsgTypes
  answering p now c s =
      let t = reached_by p now c s in
      record t { messages_in = []; heap = update t.heap p (send (ping_at now) (t.heap p)) }

  answers_ping :
      (p : ℕ) (now : List ℕ) (c : Connection CustomMsgTypes) (s : Server CustomMsgTypes)
      → update_loop custom_server 1 (reached_by p now c s) ≡ some (answering p now c s)
  unfolding update_loop
  answers_ping p now c s = answer 0 p now (reached_by p now c s) [] refl

  -- The end of the server, once it has answered.
  abbrev answered_end : ℕ → List ℕ → Connection CustomMsgTypes → Connection CustomMsgTypes
  answered_end p now c = landed_at now (record (end_at p c) { recv_deq = [] })

  reply_sent :
      (p : ℕ) (now : List ℕ) (c : Connection CustomMsgTypes) (s : Server CustomMsgTypes)
      → send_one codec ((answering p now c s).heap p)
        ≡ some (frame codec (ping_at now), answered_end p now c)
  unfolding send
  reply_sent p now c s =
      let d = answered_end p now c in
      let here : (answering p now c s).heap p ≡ send (ping_at now) d = rw (==_self p) refl in
      ap (send_one codec) here ∙ send_one_lem codec d (ping_at now) []

  -- A ping makes its way over the wire and back. Between a client and a server whose ends are open
  -- and at rest, while no other message waits, key 1 makes the client print the ticks of its clock
  -- from when the ping was sent to when the answer is read, and go on. Then both ends are at rest
  -- again, no message waits at the server or the client, the id of the connection and the other
  -- connections of the server are as they were, and so are its list, its counter and what it
  -- accepts. This holds for any layout of the header, if the clock has eight bytes, does not go
  -- back, and shows a time from 1970 on.
  pub ping_over_wire :
      (p : ℕ) (now later : List ℕ) (x c : Connection CustomMsgTypes) (s : Server CustomMsgTypes)
      → Clocks now later
      → s.messages_in ≡ []
      → s.heap p ≡ end_at p c
      → let start = record (at_rest x) { recv_deq = [] } in
        (y d : Connection CustomMsgTypes) × (t : Server CustomMsgTypes) × (round_trip p now later
            start s
          ≡ some (
            (
              false,
              pinged (pos (between now later)) ∷ [],
              linked (record (at_rest y) { recv_deq = [] }),
            ),
            t,
          ))
        × (t.heap p ≡ end_at p d)
        × (d.id ≡ c.id)
        × ((q : ℕ) → q ≢ p → t.heap q ≡ s.heap q)
        × (t ≡ record s { heap = t.heap })
  ping_over_wire p now later x c s clocks none_waits rests =
      let (e, order, small) = clocks in
      let start = record (at_rest x) { recv_deq = [] } in
      let m = ping_at now in
      let replied = answering p now c s in
      let t = record replied { heap = update replied.heap p (answered_end p now c) } in
      (
        record x { temp_msg = m },
        answered_end p now c,
        t,
        rw
            (
              post_ping now start refl,
              send_one_lem codec start m [],
              ping_reaches p now c s e none_waits rests,
              answers_ping p now c s,
              reply_sent p now c s,
              ping_arrives now start e refl,
            )
            (ap (λ o. o >>= λ seen. some (seen, t))
              (read_ping now later (landed_at now start) (remote_of start.owner_type start.self) []
                clocks refl refl)),
        rw (==_self p) refl,
        refl,
        λ q other. let no : (p == q) ≡ false = ground arith in rw no refl,
        ap (λ ms. record s { messages_in = ms; heap = t.heap }) (sym none_waits),
      )
