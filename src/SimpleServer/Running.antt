-- ===== src/SimpleServer/Running.antt =====
-- The program of SimpleServer.cpp from its start on.
use network_study.Prelude.{
  ℕ, zero, suc, ◌+◌, ◌^◌, ◌≡◌, ◌<◌, inl, inr, refl, ◌∙◌, ◌==◌, Bool, true, false, List, [], ◌∷◌,
  ◌++◌, some, none, ◌⊎◌, ap, Option, All, if◌then◌else◌, Bool-cases, arith,
}
use network_study.Message.{Message, new_message}
use network_study.Connection.{Codec, server, Connection, new_connection, send, connect_to_client}
use network_study.Connection.Handlers.{run_post, run_write, run_read}
use network_study.Connection.Returning.{
  HasSender, Returns, idle, Fit, run_post-Returns, run_write-Returns,
}
use network_study.Connection.Filling.{run_read-Returns}
use network_study.Server.{
  Server, new_server, start, make_connection, approve, on_object, send_to, on_accept,
  wait_for_client_connection,
}
use network_study.Server.Clients.{Keeps, approve-Inv}
use network_study.SimpleServer.{CustomMsgTypes, server_accept, on_client_connect, custom_server}
use network_study.SimpleServer.System.{
  Move, turn, accepted, posted, wrote, was_read, accept_one, at_connection, one_move, moves,
  server_main, place_of, is_owned, is_pending,
}
use network_study.SimpleServer.Answering.{turn-Works}
use network_study.SimpleServer.Safety.{
  Good, Works, same_ids-Inv, update_at, update_same, send-Fit, connect-Fit, at_connection-Works,
}

-- How many clients are accepted.
abbrev pub accepts : Move → ℕ
accepts (accepted error) = 1
accepts _ = 0

abbrev pub all_accepts : List Move → ℕ
all_accepts [] = 0
all_accepts (m ∷ ms) = accepts m + all_accepts ms

-- A client is accepted, let in and greeted.
joined-Works :
    (no_id : CustomMsgTypes) (s : Server CustomMsgTypes) (ps : List ℕ)
    → s.id_counter + 1 < 2 ^ 32
    → Good s ps
    → Works (s.id_counter + 1) (s.accepting + 1) (on_accept custom_server no_id false s)
unfolding on_accept make_connection on_client_connect send_to on_object send approve
    wait_for_client_connection new_connection
joined-Works no_id s ps small v =
    let place = s.next_place in
    let made = make_connection no_id s in
    let greeting : Message CustomMsgTypes = new_message server_accept in
    let greeted = on_object place (send greeting) made in
    let joined = approve place greeted in
    let one : Connection CustomMsgTypes = new_connection server place true s.messages_in no_id in
    let other : Connection CustomMsgTypes → Connection CustomMsgTypes = send greeting in
    let keeps : Keeps made greeted = record {
      same_list = refl;
      same_counter = refl;
      same_place = refl;
      same_id = λ q. update_same (λ x. x.id) made.heap place q (other (made.heap place)) refl;
      same_open =
          λ q. update_same (λ x. x.is_open) made.heap place q (other (made.heap place)) refl;
      same_owner =
          λ q. update_same (λ x. x.owner_type) made.heap place q (other (made.heap place)) refl;
      same_reads = λ q. update_same (λ x. x.reads) made.heap place q (other (made.heap place)) refl;
    } in
    let fit_made : (q : ℕ) → q < place + 1 → Fit (made.heap q) = λ q h.
      elim (Bool-cases (place == q)) [
        | inl same ↦ rw same (record { owned = refl; sending = idle refl })
        | inr differs ↦ rw differs (v.fit q (ground arith))
      ] in
    let fit_greeted : (q : ℕ) → q < place + 1 → Fit (greeted.heap q) = λ q h.
      update_at Fit made.heap place q (other (made.heap place))
        (send-Fit greeting (made.heap place) (fit_made place (omega arith))) (fit_made q h) in
    let connected = connect_to_client greeted.id_counter (greeted.heap place) in
    (
      wait_for_client_connection joined,
      ps ++ (place ∷ []),
      refl,
      record {
        inv =
            same_ids-Inv joined (wait_for_client_connection joined) (ps ++ (place ∷ [])) refl refl
              refl (λ q. refl) (approve-Inv no_id s greeted keeps ps v.inv small);
        fit = λ q h.
            update_at Fit greeted.heap place q connected
              (connect-Fit greeted.id_counter (greeted.heap place)
                (fit_greeted place (omega arith)))
              (fit_greeted q h);
        known = v.known;
      },
      omega arith,
      refl,
    )

-- The server with one accept less under way.
accepting-Good :
    (n : ℕ) (s : Server CustomMsgTypes) (ps : List ℕ)
    → Good s ps
    → Good (record s { accepting = n }) ps
accepting-Good n s ps v = record {
  inv = same_ids-Inv s (record s { accepting = n }) ps refl refl refl (λ q. refl) v.inv;
  fit = v.fit;
  known = v.known;
}

accept_one-Works :
    (no_id : CustomMsgTypes) (error : Bool) (n : ℕ) (s : Server CustomMsgTypes) (ps : List ℕ)
    → s.accepting ≡ n
    → s.id_counter + 1 < 2 ^ 32
    → Good s ps
    → Works (s.id_counter + 1) s.accepting (accept_one no_id error n s)
unfolding accept_one on_accept wait_for_client_connection
accept_one-Works no_id error zero s ps e small v = (s, ps, refl, v, omega arith, refl)
accept_one-Works no_id true (suc n) s ps e small v = (
  record s { accepting = n + 1 },
  ps,
  refl,
  accepting-Good (n + 1) s ps v,
  omega arith,
  omega (arith, e),
)
accept_one-Works no_id false (suc n) s ps e small v =
    let first = record s { accepting = n } in
    let (t, qs, goes, good, count, accepting) =
      joined-Works no_id first ps small (accepting-Good n s ps v) in
    (t, qs, goes, good, count, omega (arith, e, accepting))

module _ (codec : Codec CustomMsgTypes) (no_id : CustomMsgTypes) where
  -- A handler that runs though its connection has been destroyed.
  abbrev pub UsesDestroyed : Move → Server CustomMsgTypes → Type 0
  UsesDestroyed m s =
      (p : ℕ) × (place_of m ≡ some p) × (is_owned p s ≡ false) × (is_pending m (s.heap p) ≡ true)

  -- Some moves come to such a handler, and are in order up to there.
  abbrev pub Breaks : List Move → Server CustomMsgTypes → Type 0
  Breaks ms s =
      (before after : List Move) × (m : Move) × (t : Server CustomMsgTypes) × (qs : List ℕ) × (ms
        ≡ before ++ (m ∷ after))
      × (moves codec no_id before s ≡ some t)
      × Good t qs
      × UsesDestroyed m t
      × (moves codec no_id ms s ≡ none)

  -- A handler at a connection goes well, or its connection has been destroyed.
  at_connection-one_move :
      (m : Move) (p : ℕ) (f : Connection CustomMsgTypes → Option (Connection CustomMsgTypes))
      (s : Server CustomMsgTypes) (ps : List ℕ)
      → place_of m ≡ some p
      → s.id_counter + accepts m < 2 ^ 32
      → ((c : Connection CustomMsgTypes) → Fit c → All HasSender c.recv_deq → Returns c (f c))
      → Good s ps
      → let o = at_connection p (is_pending m (s.heap p)) f s in
        Works (s.id_counter + accepts m) s.accepting o ⊎ ((o ≡ none) × UsesDestroyed m s)
  at_connection-one_move m p f s ps place small returns v =
      elim (at_connection-Works p (is_pending m (s.heap p)) f s ps returns v) [
        | inl (t, qs, goes, good, count, accepting) ↦
            inl (t, qs, goes, good, omega arith, accepting)
        | inr (breaks, lost, runs) ↦ inr (breaks, (p, place, lost, runs))
      ]

  one_move-Works :
      (m : Move) (s : Server CustomMsgTypes) (ps : List ℕ)
      → s.id_counter + accepts m < 2 ^ 32
      → Good s ps
      → Works (s.id_counter + accepts m) s.accepting (one_move codec no_id m s)
        ⊎ ((one_move codec no_id m s ≡ none) × UsesDestroyed m s)
  unfolding one_move
  one_move-Works turn s ps small v =
      let (t, qs, goes, good, count, accepting) = turn-Works s.messages_in s ps refl v in
      inl (t, qs, goes, good, omega arith, accepting)
  one_move-Works (accepted error) s ps small v =
      inl (accept_one-Works no_id error s.accepting s ps refl small v)
  one_move-Works (posted p) s ps small v =
      at_connection-one_move (posted p) p (run_post codec) s ps refl small (run_post-Returns codec)
        v
  one_move-Works (wrote p error) s ps small v =
      at_connection-one_move (wrote p error) p (run_write codec error) s ps refl small
        (run_write-Returns codec error) v
  one_move-Works (was_read p error got) s ps small v =
      at_connection-one_move (was_read p error got) p (run_read codec error got) s ps refl small
        (run_read-Returns codec error got) v

  moves-Works :
      (ms : List Move) (s : Server CustomMsgTypes) (ps : List ℕ)
      → s.id_counter + all_accepts ms < 2 ^ 32
      → Good s ps
      → Works (s.id_counter + all_accepts ms) s.accepting (moves codec no_id ms s) ⊎ Breaks ms s
  unfolding moves
  moves-Works [] s ps small v = inl (s, ps, refl, v, omega arith, refl)
  moves-Works (m ∷ ms) s ps small v = elim (one_move-Works m s ps (omega arith) v) [
    | inr (breaks, uses) ↦ inr ([], ms, m, s, ps, refl, refl, v, uses, rw breaks refl)
    | inl (t, qs, goes, good, count, accepting) ↦ elim (moves-Works ms t qs (omega arith) good) [
      | inl (u, rs, goes', good', count', accepting') ↦
          inl (u, rs, rw goes goes', good', omega arith, accepting' ∙ accepting)
      | inr (before, after, n, u, rs, parts, runs, good', uses, breaks) ↦
          inr (
            m ∷ before,
            after,
            n,
            u,
            rs,
            ap (◌∷◌ m) parts,
            rw goes runs,
            good',
            uses,
            rw goes breaks,
          )
    ]
  ]

  starts-Good :
      (s : Server CustomMsgTypes)
      → s.connections ≡ []
      → s.next_place ≡ 0
      → s.messages_in ≡ []
      → Good s []
  starts-Good s list place queue = record {
    inv = record { listed = list; made = tt; below = tt; distinct = tt };
    fit = λ p h. absurd (omega (arith, place));
    known = rw queue tt;
  }

  -- Whatever clients come, send and leave, and in whatever order their handlers and the loop of
  -- main take turns, the only undefined behaviour that the chat server can meet is a handler of a
  -- connection that has been destroyed: one that is neither listed nor the sender of a message that
  -- waits, while the handler is still to run. It calls nothing through nullptr and takes nothing
  -- off an empty queue. Until such a handler runs, and at the end if none does, the list holds no
  -- nullptr, the ids of the clients in it are different, each connection has at most one write
  -- under way, whose message is at the front of its queue, and each queued message has a sender;
  -- and at the end, if `Start` has not failed at once, the server is waiting for one more client.
  -- The ids must not have used up their 32 bits.
  pub server_main_lem :
      (throws thread_fails : Bool) (objects : ℕ → Connection CustomMsgTypes) (ms : List Move)
      → 10000 + all_accepts ms < 2 ^ 32
      → ((t : Server CustomMsgTypes) × (ps : List ℕ) × (server_main codec no_id throws thread_fails
              objects ms
            ≡ some t)
          × Good t ps
          × (t.accepting ≡ (if throws then 0 else 1)))
        ⊎ ((before after : List Move) × (m : Move) × (t : Server CustomMsgTypes) × (ps : List ℕ)
            × (ms ≡ before ++ (m ∷ after))
            × (server_main codec no_id throws thread_fails objects before ≡ some t)
            × Good t ps
            × UsesDestroyed m t
            × (server_main codec no_id throws thread_fails objects ms ≡ none))
  unfolding server_main start new_server wait_for_client_connection
  server_main_lem true thread_fails objects ms small =
      let first = new_server objects in
      elim (moves-Works ms first [] small (starts-Good first refl refl refl)) [
        | inl (t, ps, goes, good, count, accepting) ↦ inl (t, ps, goes, good, accepting)
        | inr breaks ↦ inr breaks
      ]
  server_main_lem false thread_fails objects ms small =
      let first = wait_for_client_connection (new_server objects) in
      elim (moves-Works ms first [] small (starts-Good first refl refl refl)) [
        | inl (t, ps, goes, good, count, accepting) ↦ inl (t, ps, goes, good, accepting)
        | inr breaks ↦ inr breaks
      ]
