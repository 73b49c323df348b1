-- ===== src/Client/Greeting.antt =====
-- A chat client greets the others through the chat server, over the wire (SimpleClient.cpp,
-- SimpleServer.cpp, net_connection.h).
use network_study.Prelude.{
  ℕ, ◌^◌, ◌≡◌, ◌<◌, refl, ap, ap₂, ◌∙◌, Bool, true, false, List, [], ◌∷◌, ◌++◌, map, Option, some,
  ◌>>=◌, ◌≢◌, arith, ==_self, ◌==◌, replicate,
}
use network_study.Message.{Message, new_message}
use network_study.Connection.{Codec, remote_of, Connection, post_send, is_connected, send}
use network_study.Connection.Reading.{Fits, receive, arrived, owned}
use network_study.Connection.Writing.{frame}
use network_study.Connection.Exchange.{send_one, send_one_lem, receive-frame}
use network_study.Server.{Server, update, on_shared, update_loop}
use network_study.Server.Broadcast.{survivors, hits, sent_to, broadcast_state}
use network_study.Server.Dispatch.{update_loop_cons}
use network_study.SimpleServer.{CustomMsgTypes, message_all, on_client_disconnect, custom_server}
use network_study.SimpleServer.Protocol.{hello_from, on_message_all}
use network_study.Client.{Client, Line, hello, client_message_all, send_to_server, read_incoming}
use network_study.Client.Chat.{linked, read_incoming-hello_from}
use network_study.Client.Wire.{at_rest, end_at}
use network_study.Server.Listed.{times, hits-times, hits_ignored}

abbrev pub asking : Message CustomMsgTypes
asking = new_message message_all

post_asking :
    (x : Connection CustomMsgTypes)
    → x.is_open ≡ true
    → client_message_all (linked x)
      ≡ linked (record x { posts = x.posts ++ (post_send asking ∷ []) })
unfolding client_message_all send_to_server is_connected send
post_asking x up = rw (client_message_all, up) refl

module _ (codec : Codec CustomMsgTypes) where
  -- Key 2 goes down at a client: its handlers send the message, the reads of the server complete, and
  -- `Update` takes one message.
  abbrev pub greet :
      ℕ
      → Connection CustomMsgTypes
      → Server CustomMsgTypes
      → Option (Connection CustomMsgTypes × Server CustomMsgTypes)
  greet p x s = do
    sender ← (client_message_all (linked x)).connection
    (request, waiting) ← send_one codec sender
    reached ← some (on_shared p (λ c. (receive codec 1 c request).0) s)
    greeted ← update_loop custom_server 1 reached
    some (waiting, greeted)

  -- The handlers of the server send what it has posted to another client, the reads of that client
  -- complete, and its loop looks at what has come.
  abbrev pub hears :
      ℕ
      → List ℕ
      → Connection CustomMsgTypes
      → Server CustomMsgTypes
      → Option ((Bool × List Line × Client CustomMsgTypes) × Connection CustomMsgTypes)
  hears q read_at y s = do
    (note, peer) ← send_one codec (s.heap q)
    seen ← read_incoming read_at (linked (receive codec 2 y note).0)
    some (seen, peer)

  -- The end of the server, once the message has come.
  abbrev pub asked_end : ℕ → Connection CustomMsgTypes → Connection CustomMsgTypes
  asked_end p c = arrived codec (record (end_at p c) { recv_deq = [] }) asking

  abbrev pub reached_by :
      ℕ → Connection CustomMsgTypes → Server CustomMsgTypes → Server CustomMsgTypes
  reached_by p c s = record s {
    heap = update s.heap p (asked_end p c);
    messages_in = (asked_end p c).recv_deq;
  }

  asking_reaches :
      (p : ℕ) (c : Connection CustomMsgTypes) (s : Server CustomMsgTypes)
      → s.messages_in ≡ []
      → s.heap p ≡ end_at p c
      → on_shared p (λ d. (receive codec 1 d (frame codec asking)).0) s ≡ reached_by p c s
  unfolding on_shared
  asking_reaches p c s none_waits rests =
      let got = λ (d : Connection CustomMsgTypes). (receive codec 1 d (frame codec asking)).0 in
      let result = λ (d : Connection CustomMsgTypes). record s {
        heap = update s.heap p d;
        messages_in = d.recv_deq;
      } in
      let fits : Fits asking = (refl, omega arith) in
      ap₂ (λ (d : Connection CustomMsgTypes) q. result (got (record d { recv_deq = q }))) rests
        none_waits
      ∙ ap (λ r. result r.0)
          (receive-frame codec (record (end_at p c) { recv_deq = [] }) asking refl fits)

  -- The server once it has greeted.
  abbrev pub greeted_by :
      ℕ → List ℕ → Connection CustomMsgTypes → Server CustomMsgTypes → Server CustomMsgTypes
  greeted_by p ps c s =
      let t = reached_by p c s in
      let is_open = λ (q : ℕ). (t.heap q).is_open in
      record t {
        messages_in = [];
        connections = map some (survivors is_open ps);
        heap = sent_to is_open (some p) (hello_from c.id) ps t.heap;
      }

  greets :
      (p : ℕ) (ps : List ℕ) (c : Connection CustomMsgTypes) (s : Server CustomMsgTypes)
      → s.connections ≡ map some ps
      → update_loop custom_server 1 (reached_by p c s) ≡ some (greeted_by p ps c s)
  unfolding update_loop
  greets p ps c s listed =
      let t = reached_by p c s in
      let idle = record t { messages_in = [] } in
      let m = (owned codec (record (end_at p c) { recv_deq = [] }) asking).msg in
      let here : (t.heap p).id ≡ c.id = rw (==_self p) refl in
      update_loop_cons custom_server 0 t _ [] refl
      ∙ ap (λ o. o >>= update_loop custom_server 0)
          (on_message_all p _ idle refl
            ∙ broadcast_state on_client_disconnect (hello_from (t.heap p).id) (some p) idle ps
                (λ q u. unfold on_client_disconnect in refl) listed)
      ∙ ap
          (λ i. some (record t {
            messages_in = [];
            connections = map some (survivors (λ q. (t.heap q).is_open) ps);
            heap = sent_to (λ q. (t.heap q).is_open) (some p) (hello_from i) ps t.heap;
          }))
          here

  -- What it has for another client, which is listed once.
  pub posted_to :
      (p q : ℕ) (ps : List ℕ) (c d : Connection CustomMsgTypes) (s : Server CustomMsgTypes)
      → s.heap q ≡ end_at q d
      → q ≢ p
      → times q ps ≡ 1
      → (greeted_by p ps c s).heap q
        ≡ record (end_at q d) { posts = post_send (hello_from c.id) ∷ [] }
  unfolding sent_to
  posted_to p q ps c d s rests other once =
      let t = reached_by p c s in
      let is_open = λ (r : ℕ). (t.heap r).is_open in
      let apart : (p == q) ≡ false = ground arith in
      let there : t.heap q ≡ end_at q d = rw apart rests in
      let count : hits is_open (some p) q ps ≡ 1 =
        hits-times is_open p q ps (ap (λ (e : Connection CustomMsgTypes). e.is_open) there) other
        ∙ once in
      ap₂
        (λ (e : Connection CustomMsgTypes) n. record e {
          posts = e.posts ++ replicate n (post_send (hello_from c.id));
        })
        there count

  -- It has nothing for the client that asked.
  pub posted_to_self :
      (p : ℕ) (ps : List ℕ) (c : Connection CustomMsgTypes) (s : Server CustomMsgTypes)
      → (greeted_by p ps c s).heap p ≡ asked_end p c
  unfolding sent_to
  posted_to_self p ps c s =
      let t = reached_by p c s in
      let is_open = λ (r : ℕ). (t.heap r).is_open in
      let here : t.heap p ≡ asked_end p c = rw (==_self p) refl in
      ap₂
        (λ (e : Connection CustomMsgTypes) n. record e {
          posts = e.posts ++ replicate n (post_send (hello_from c.id));
        })
        here (hits_ignored is_open p ps)

  -- The sender is at rest again, and the server has greeted.
  pub greet_lem :
      (p : ℕ) (ps : List ℕ) (x c : Connection CustomMsgTypes) (s : Server CustomMsgTypes)
      → s.messages_in ≡ []
      → s.connections ≡ map some ps
      → s.heap p ≡ end_at p c
      → let sender = record (at_rest x) { recv_deq = [] } in
        greet p sender s ≡ some (sender, greeted_by p ps c s)
  greet_lem p ps x c s none_waits listed rests =
      let sender = record (at_rest x) { recv_deq = [] } in
      rw
        (
          post_asking sender refl,
          send_one_lem codec sender asking [],
          asking_reaches p c s none_waits rests,
          greets p ps c s listed,
        )
        refl

  -- A client hears of the client `id`, and is at rest again.
  pub hears_lem :
      (id q : ℕ) (read_at : List ℕ) (y d : Connection CustomMsgTypes) (s : Server CustomMsgTypes)
      → s.heap q ≡ record (end_at q d) { posts = post_send (hello_from id) ∷ [] }
      → id < 2 ^ 32
      → let listener = record (at_rest y) { recv_deq = [] } in
        let heard = record (arrived codec listener (hello_from id)) { recv_deq = [] } in
        hears q read_at listener s ≡ some ((false, hello id ∷ [], linked heard), end_at q d)
  hears_lem id q read_at y d s posted small =
      let listener = record (at_rest y) { recv_deq = [] } in
      let note = hello_from id in
      let heard = arrived codec listener note in
      let fits : Fits note = (refl, omega arith) in
      rw
        (
          posted,
          send_one_lem codec (end_at q d) note [],
          receive-frame codec listener note refl fits,
        )
        (ap (λ o. o >>= λ seen. some (seen, end_at q d))
          (read_incoming-hello_from id read_at heard (remote_of y.owner_type y.self) [] small refl
            refl))
