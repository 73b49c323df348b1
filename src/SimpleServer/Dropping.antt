-- ===== src/SimpleServer/Dropping.antt =====
-- What SimpleServer.cpp does with a connection that other code still works on.
use network_study.Prelude.{
  ℕ, ◌≡◌, ◌≢◌, refl, ap, ◌∙◌, Bool, false, List, [], ◌∷◌, ◌++◌, map, append-nil, Option, some,
  ◌>>=◌, ◌==◌, replicate, All, none, true, ltb, ◌<◌, lt→ltb, sym, Bool-cases, inl, inr, arith,
}
use network_study.Message.{Message}
use network_study.Connection.{Codec, Connection, OwnedMessage, post_send}
use network_study.Server.{Server, update_loop}
use network_study.Server.Broadcast.{survivors, hits, sent_to, broadcast_state}
use network_study.SimpleServer.System.{
  Move, turn, accepted, posted, wrote, was_read, is_listed, is_sender, is_owned, place_of,
  is_pending, at_connection, one_move,
}
use network_study.Connection.Handlers.{run_post, run_write, run_read}
use network_study.Server.Dispatch.{update_loop_cons}
use network_study.SimpleServer.{custom_server, CustomMsgTypes, message_all, on_client_disconnect}
use network_study.SimpleServer.Protocol.{hello_from, on_message_all}

module _ (is_open : ℕ → Bool) (q : ℕ) (closed : is_open q ≡ false) where
  -- A client whose socket is closed does not stay.
  not_survivor : (ps : List ℕ) → All (λ c. c ≢ some q) (map some (survivors is_open ps))
  unfolding survivors
  not_survivor [] = tt
  not_survivor (p ∷ ps) = elim (Bool-cases (is_open p)) [
    | inl stays ↦ let other : some p ≢ some q = λ e. cc in rw stays (other, not_survivor ps)
    | inr leaves ↦ rw leaves (not_survivor ps)
  ]

  -- It is not sent to.
  no_hits : (ignore : Option ℕ) (ps : List ℕ) → hits is_open ignore q ps ≡ 0
  unfolding hits
  no_hits ignore [] = refl
  no_hits ignore (p ∷ ps) = elim (Bool-cases (p == q)) [
    | inr other ↦ rw other (no_hits ignore ps)
    | inl same ↦
        let at : p ≡ q = ground arith in
        let down : is_open p ≡ false = ap is_open at ∙ closed in rw (same, down) (no_hits ignore ps)
  ]

not_listed : (q : ℕ) (cs : List (Option ℕ)) → All (λ c. c ≢ some q) cs → is_listed q cs ≡ false
not_listed q [] others = refl
not_listed q (none ∷ cs) (other, others) = not_listed q cs others
not_listed q (some p ∷ cs) (other, others) = elim (Bool-cases (q == p)) [
  | inr differs ↦ rw differs (not_listed q cs others)
  | inl same ↦ let at : q ≡ p = ground arith in absurd (other (ap some (sym at)))
]

lost_at :
    (p q : ℕ) (pending : ℕ → Bool)
    (f : Connection CustomMsgTypes → Option (Connection CustomMsgTypes)) (s : Server CustomMsgTypes)
    → some p ≡ some q
    → q < s.next_place
    → is_owned q s ≡ false
    → pending q ≡ true
    → at_connection p (pending p) f s ≡ none
unfolding at_connection
lost_at p q pending f s place made lost runs =
    let at : p ≡ q = cc in
    let below : ltb q s.next_place ≡ true = lt→ltb q s.next_place made in
    ap (λ a. at_connection a (pending a) f s) at ∙ rw (at_connection, below, lost, runs) refl

module _ (codec : Codec CustomMsgTypes) (no_id : CustomMsgTypes) where
  -- A handler of a connection that has been destroyed.
  lost_move :
      (m : Move) (q : ℕ) (s : Server CustomMsgTypes)
      → place_of m ≡ some q
      → q < s.next_place
      → is_owned q s ≡ false
      → is_pending m (s.heap q) ≡ true
      → one_move codec no_id m s ≡ none
  unfolding one_move
  lost_move turn q s place made lost runs = absurd (cc)
  lost_move (accepted error) q s place made lost runs = absurd (cc)
  lost_move (posted p) q s place made lost runs =
      lost_at p q (λ a. is_pending (posted p) (s.heap a)) (run_post codec) s place made lost runs
  lost_move (wrote p error) q s place made lost runs =
      lost_at p q (λ a. is_pending (wrote p error) (s.heap a)) (run_write codec error) s place made
        lost runs
  lost_move (was_read p error got) q s place made lost runs =
      lost_at p q (λ a. is_pending (was_read p error got) (s.heap a)) (run_read codec error got) s
        place made lost runs

  -- A client whose socket is closed is destroyed while its handlers are still to run. It is listed,
  -- so the server owns it; `Update` takes a `MessageAll`, by which it leaves the list; and if it is
  -- not the sender of a message that still waits, then any of its handlers that was to run, for a
  -- posted function, a write or a read, is undefined: such a handler works on its connection and
  -- does not own it. The list holds no nullptr.
  pub dropped_in_use :
      (p q : ℕ) (m : Move) (msg : Message CustomMsgTypes)
      (rest : List (OwnedMessage CustomMsgTypes)) (s : Server CustomMsgTypes) (ps : List ℕ)
      → s.messages_in ≡ record { remote = some p; msg = msg } ∷ rest
      → msg.header.id ≡ message_all
      → s.connections ≡ map some ps
      → q < s.next_place
      → (s.heap q).is_open ≡ false
      → is_listed q s.connections ≡ true
      → is_sender q rest ≡ false
      → place_of m ≡ some q
      → is_pending m (s.heap q) ≡ true
      → (is_owned q s ≡ true)
        × (t : Server CustomMsgTypes) × (one_move codec no_id turn s ≡ some t)
        × (one_move codec no_id m t ≡ none)
  unfolding one_move update_loop sent_to on_client_disconnect
  dropped_in_use p q m msg rest s ps first e l made closed listed quiet place runs =
      let idle = record s { messages_in = rest } in
      let is_open = λ (r : ℕ). (s.heap r).is_open in
      let hello = hello_from (s.heap p).id in
      let t : Server CustomMsgTypes = record idle {
        connections = map some (survivors is_open ps);
        heap = sent_to is_open (some p) hello ps s.heap;
      } in
      let same : t.heap q ≡ s.heap q =
        ap (λ l. record (s.heap q) { posts = l })
          (ap (λ n. (s.heap q).posts ++ replicate n (post_send hello))
              (no_hits is_open q closed (some p) ps)
            ∙ append-nil (s.heap q).posts) in
      let lost : is_owned q t ≡ false =
        rw (not_listed q t.connections (not_survivor is_open q closed ps)) quiet in
      (
        rw listed refl,
        t,
        update_loop_cons custom_server 0 s _ rest first
            ∙ ap (λ o. o >>= update_loop custom_server 0)
                (on_message_all p msg idle e
                  ∙ broadcast_state on_client_disconnect hello (some p) idle ps (λ r u. refl) l),
        lost_move m q t place made lost (ap (is_pending m) same ∙ runs),
      )
