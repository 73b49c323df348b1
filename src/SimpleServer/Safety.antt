-- ===== src/SimpleServer/Safety.antt =====
-- The server of SimpleServer.cpp stays in order, whatever it meets.
use network_study.Prelude.{
  ℕ, ◌≡◌, ◌<◌, ◌≤◌, inl, inr, refl, ap, ◌∙◌, ◌==◌, true, false, List, Option, none, some, Bool, ◌⊎◌,
  if◌then◌else◌, ltb, Bool-cases, arith, All, All-map, All-zip,
}
use network_study.Message.{Message}
use network_study.Connection.{OwnedMessage, Connection, send, connect_to_client}
use network_study.Connection.Returning.{Fit, HasSender, Returns}
use network_study.Server.{Server, update}
use network_study.Server.Clients.{Inv, Distinct-same}
use network_study.SimpleServer.{CustomMsgTypes}
use network_study.SimpleServer.System.{at_connection, is_owned}

-- The list of clients is in order, and so is every connection that has been made; every queued message
-- has a sender.
pub record Good (s : Server CustomMsgTypes) (ps : List ℕ) : Type 0 where
  pub inv : Inv s ps
  pub fit : (p : ℕ) → p < s.next_place → Fit (s.heap p)
  pub known : All HasSender s.messages_in

-- The code returns, and the server is in order after it, with some list of clients; the counter of ids is
-- at most `n`, and `k` accepts are under way.
abbrev pub Works : ℕ → ℕ → Option (Server CustomMsgTypes) → Type 0
Works n k o =
    (t : Server CustomMsgTypes) × (ps : List ℕ) × (o ≡ some t)
    × Good t ps
    × (t.id_counter ≤ n)
    × (t.accepting ≡ k)

-- A server whose clients have the ids that they had.
pub same_ids-Inv :
    (s t : Server CustomMsgTypes) (ps : List ℕ)
    → t.connections ≡ s.connections
    → t.next_place ≡ s.next_place
    → t.id_counter ≡ s.id_counter
    → ((q : ℕ) → (t.heap q).id ≡ (s.heap q).id)
    → Inv s ps
    → Inv t ps
same_ids-Inv s t ps list place count ids v =
    let same : All (λ q. (t.heap q).id ≡ (s.heap q).id) ps = All-map ps (λ q b. ids q) v.made in
    record {
      listed = list ∙ v.listed;
      made = All-map ps (λ q b. omega (arith, place)) v.made;
      below = All-zip ps (λ q e b. omega (arith, count)) same v.below;
      distinct = Distinct-same t.heap s.heap ps same v.distinct;
    }

-- A property of the connections and of the one that is written.
pub update_at {ℓ} :
    (P : Connection CustomMsgTypes → Type ℓ) (h : ℕ → Connection CustomMsgTypes) (p q : ℕ)
    (c : Connection CustomMsgTypes)
    → P c
    → P (h q)
    → P (update h p c q)
update_at P h p q c here there = elim (p == q) as (λ b. P (if b then c else h q)) [
  | true ↦ here
  | false ↦ there
]

-- What a write at one place leaves as it was, there and elsewhere.
pub update_same {ℓ} :
    {A : Type ℓ} (field : Connection CustomMsgTypes → A) (h : ℕ → Connection CustomMsgTypes)
    (p q : ℕ) (c : Connection CustomMsgTypes)
    → field c ≡ field (h p)
    → field (update h p c q) ≡ field (h q)
update_same field h p q c e = elim (Bool-cases (p == q)) [
  | inl same ↦ let at : p ≡ q = ground arith in rw same (e ∙ ap (λ r. field (h r)) at)
  | inr other ↦ rw other refl
]

-- One connection is written, and the incoming queue.
object-Good :
    (s : Server CustomMsgTypes) (ps : List ℕ) (p : ℕ) (c : Connection CustomMsgTypes)
    (ms : List (OwnedMessage CustomMsgTypes))
    → Good s ps
    → Fit c
    → c.id ≡ (s.heap p).id
    → All HasSender ms
    → Good (record s { heap = update s.heap p c; messages_in = ms }) ps
object-Good s ps p c ms v fit same_id known = record {
  inv =
      same_ids-Inv s (record s { heap = update s.heap p c; messages_in = ms }) ps refl refl refl
        (λ q. update_same (λ x. x.id) s.heap p q c same_id) v.inv;
  fit = λ q made. update_at Fit s.heap p q c fit (v.fit q made);
  known = known;
}

pub at_connection-Works :
    (p : ℕ) (pending : Bool) (f : Connection CustomMsgTypes → Option (Connection CustomMsgTypes))
    (s : Server CustomMsgTypes) (ps : List ℕ)
    → ((c : Connection CustomMsgTypes) → Fit c → All HasSender c.recv_deq → Returns c (f c))
    → Good s ps
    → Works s.id_counter s.accepting (at_connection p pending f s)
      ⊎ ((at_connection p pending f s ≡ none) × (is_owned p s ≡ false) × (pending ≡ true))
unfolding at_connection
at_connection-Works p pending f s ps returns v = elim (Bool-cases (ltb p s.next_place)) [
  | inr other ↦ inl (s, ps, rw (at_connection, other) refl, v, omega arith, refl)
  | inl made ↦ elim (Bool-cases (is_owned p s)) [
    | inl owned ↦
        let old = record (s.heap p) { recv_deq = s.messages_in } in
        let was = v.fit p (ground arith) in
        let (c, goes, fit, same_id, known) =
          returns old (record { owned = was.owned; sending = was.sending }) v.known in
        inl (
          record s { heap = update s.heap p c; messages_in = c.recv_deq },
          ps,
          rw (at_connection, made, owned, goes) refl,
          object-Good s ps p c c.recv_deq v fit same_id known,
          omega arith,
          refl,
        )
    | inr lost ↦ elim (Bool-cases pending) [
      | inl runs ↦ inr (rw (at_connection, made, lost, runs) refl, lost, runs)
      | inr quiet ↦ inl (s, ps, rw (at_connection, made, lost, quiet) refl, v, omega arith, refl)
    ]
  ]
]

pub send-Fit :
    (msg : Message CustomMsgTypes) (c : Connection CustomMsgTypes) → Fit c → Fit (send msg c)
unfolding send
send-Fit msg c fit = record { owned = fit.owned; sending = fit.sending }

pub connect-Fit : (uid : ℕ) (c : Connection CustomMsgTypes) → Fit c → Fit (connect_to_client uid c)
unfolding connect_to_client
connect-Fit uid c fit =
    let same_writes : (connect_to_client uid c).writes ≡ c.writes = ground arith in
    let same_queue : (connect_to_client uid c).send_deq ≡ c.send_deq = ground arith in
    record { owned = ground (arith, fit.owned); sending = rw (same_writes, same_queue) fit.sending }
