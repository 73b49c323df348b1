-- ===== src/SimpleServer/Answering.antt =====
-- One turn of the loop of main of SimpleServer.cpp keeps the server in order.
use network_study.Prelude.{
  ℕ, ◌≡◌, inl, inr, refl, ap, subst, ◌∙◌, ◌==◌, Bool, List, [], ◌∷◌, map, some, ◌>>=◌, Bool-cases,
  arith, All, All-map,
}
use network_study.Message.{Message}
use network_study.Connection.{OwnedMessage, Connection, send}
use network_study.Connection.Returning.{HasSender}
use network_study.Server.{Server, on_object, send_to, update_loop, message_all_clients}
use network_study.Server.Broadcast.{survivors, sent_to, broadcast_state}
use network_study.Server.Clients.{Distinct, Distinct-same}
use network_study.Server.Dispatch.{update_loop_cons, update_loop_nil}
use network_study.SimpleServer.{
  CustomMsgTypes, server_accept, server_deny, server_ping, message_all, server_message,
  on_client_disconnect, on_message, custom_server,
}
use network_study.SimpleServer.Protocol.{hello_from, on_message_all}
use network_study.SimpleServer.Safety.{Good, Works, same_ids-Inv, update_same, send-Fit}

-- A message to one client.
send_to-Works :
    (p : ℕ) (msg : Message CustomMsgTypes) (s : Server CustomMsgTypes) (ps : List ℕ)
    → Good s ps
    → Works s.id_counter s.accepting (send_to (some p) msg s)
unfolding send_to on_object send
send_to-Works p msg s ps v = (
  on_object p (send msg) s,
  ps,
  refl,
  record {
    inv =
        same_ids-Inv s (on_object p (send msg) s) ps refl refl refl
          (λ q. update_same (λ x. x.id) s.heap p q (send msg (s.heap p)) refl) v.inv;
    fit = λ q made. elim (Bool-cases (p == q)) [
      | inl same ↦
          let at : p ≡ q = ground arith in
          rw same (send-Fit msg (s.heap p) (v.fit p (omega (arith, at))))
      | inr other ↦ rw other (v.fit q made)
    ];
    known = v.known;
  },
  omega arith,
  refl,
)

module _ (is_open : ℕ → Bool) where
  All-survivors {ℓ} : (P : ℕ → Type ℓ) (ps : List ℕ) → All P ps → All P (survivors is_open ps)
  unfolding survivors
  All-survivors P [] all = tt
  All-survivors P (p ∷ ps) all = elim (Bool-cases (is_open p)) [
    | inl stays ↦ rw stays (all.0, All-survivors P ps all.1)
    | inr leaves ↦ rw leaves (All-survivors P ps all.1)
  ]

  Distinct-survivors :
      (h : ℕ → Connection CustomMsgTypes) (ps : List ℕ)
      → Distinct h ps
      → Distinct h (survivors is_open ps)
  unfolding survivors
  Distinct-survivors h [] all = tt
  Distinct-survivors h (p ∷ ps) all = elim (Bool-cases (is_open p)) [
    | inl stays ↦ rw stays (All-survivors _ ps all.0, Distinct-survivors h ps all.1)
    | inr leaves ↦ rw leaves (Distinct-survivors h ps all.1)
  ]

-- A message to all but one.
greet-Works :
    (p : ℕ) (msg hello : Message CustomMsgTypes) (s : Server CustomMsgTypes) (ps : List ℕ)
    → Good s ps
    → on_message (some p) msg s ≡ message_all_clients on_client_disconnect hello (some p) s
    → Works s.id_counter s.accepting (on_message (some p) msg s)
unfolding sent_to on_client_disconnect
greet-Works p msg hello s ps v goes =
    let is_open = λ (q : ℕ). (s.heap q).is_open in
    let t : Server CustomMsgTypes = record s {
      connections = map some (survivors is_open ps);
      heap = sent_to is_open (some p) hello ps s.heap;
    } in
    (
      t,
      survivors is_open ps,
      goes ∙ broadcast_state on_client_disconnect hello (some p) s ps (λ q u. refl) v.inv.listed,
      record {
        inv = record {
          listed = refl;
          made = All-survivors is_open _ ps v.inv.made;
          below = All-survivors is_open _ ps v.inv.below;
          distinct =
              Distinct-same t.heap s.heap (survivors is_open ps)
                (All-map (survivors is_open ps) (λ q b. refl)
                  (All-survivors is_open _ ps v.inv.made))
                (Distinct-survivors is_open s.heap ps v.inv.distinct);
        };
        fit =
            λ q made. let was = v.fit q made in record { owned = was.owned; sending = was.sending };
        known = v.known;
      },
      omega arith,
      refl,
    )

on_message-Works :
    (i : CustomMsgTypes) (size : ℕ) (body : List ℕ) (p : ℕ) (s : Server CustomMsgTypes)
    (ps : List ℕ)
    → Good s ps
    → Works s.id_counter s.accepting
        (on_message (some p) (record { header = record { id = i; size = size }; body = body }) s)
unfolding on_message
on_message-Works server_accept size body p s ps v = (s, ps, refl, v, omega arith, refl)
on_message-Works server_deny size body p s ps v = (s, ps, refl, v, omega arith, refl)
on_message-Works server_ping size body p s ps v = send_to-Works p _ s ps v
on_message-Works message_all size body p s ps v =
    let msg : Message CustomMsgTypes = record {
      header = record { id = message_all; size = size };
      body = body;
    } in
    greet-Works p msg (hello_from (s.heap p).id) s ps v (on_message_all p msg s refl)
on_message-Works server_message size body p s ps v = (s, ps, refl, v, omega arith, refl)

-- One turn of the loop of `Update`.
pub turn-Works :
    (ms : List (OwnedMessage CustomMsgTypes)) (s : Server CustomMsgTypes) (ps : List ℕ)
    → s.messages_in ≡ ms
    → Good s ps
    → Works s.id_counter s.accepting (update_loop custom_server 1 s)
unfolding update_loop
turn-Works [] s ps e v = (s, ps, update_loop_nil custom_server 1 s e, v, omega arith, refl)
turn-Works (m ∷ rest) s ps e v =
    let ((p, sender), known) = subst (All HasSender) e v.known in
    let first = record s { messages_in = rest } in
    let next : Good first ps = record {
      inv = same_ids-Inv s first ps refl refl refl (λ q. refl) v.inv;
      fit = v.fit;
      known = known;
    } in
    let (t, qs, goes, good, count, accepting) =
      on_message-Works m.msg.header.id m.msg.header.size m.msg.body p first ps next in
    let calls : on_message m.remote m.msg first ≡ some t =
      ap (λ o. on_message o m.msg first) sender ∙ goes in
    (
      t,
      qs,
      update_loop_cons custom_server 0 s m rest e
          ∙ ap (λ o. o >>= update_loop custom_server 0) calls,
      good,
      count,
      accepting,
    )
