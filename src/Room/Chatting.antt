-- ===== src/Room/Chatting.antt =====
-- Any number of requests, served one after another.
use network_study.Prelude.{
  ℕ, ◌^◌, ◌<◌, ◌≤◌, ◌≡◌, ◌≢◌, refl, subst, sym, ap, ◌∙◌, true, false, List, [], ◌∷◌, some, ◌==◌,
  arith, ==_self, Bool-cases, inl, inr,
}
use network_study.Connection.{Codec, Connection}
use network_study.Server.{Server, update}
use network_study.Server.Listed.{times}
use network_study.SimpleServer.{CustomMsgTypes}
use network_study.Room.{Room, hear, told, rested, Rests}
use network_study.Prelude.{map, All}
use network_study.Server.Listed.{survivors_all}
use network_study.Client.Wire.{ping_over_wire}
use network_study.Client.Greeting.{
  greet_lem, greeted_by, reached_by, asked_end, posted_to, posted_to_self,
}
use network_study.Room.{
  Request, pings, greets, others, answer, chat, expected, all_expected, Asks, Quiet,
}
use network_study.Client.Pinging.{Clocks}
use network_study.Room.Hearing.{Waits, Rests-Same, hear_all_lem}
use network_study.Room.Others.{times-others_self, times-others, others_apart, times-others_le}

module _ (codec : Codec CustomMsgTypes) (ids : ℕ → ℕ) (ps : List ℕ) where
  ping_answered :
      (p : ℕ) (now read_at : List ℕ) (r : Room)
      → Clocks now read_at
      → times p ps ≡ 1
      → Quiet ids ps r
      → (t : Room) × (answer codec ps (pings p now read_at) r
          ≡ some (expected ids ps (pings p now read_at), t))
        × Quiet ids ps t
  ping_answered p now read_at r e asks v =
      let (y, c, client, end, uid) = v.ends p asks in
      let (y', d, s, goes, end', same_id, elsewhere, only) =
        ping_over_wire codec p now read_at y c r.server e v.none_waits end in
      let t : Room = record { clients = update r.clients p (rested y'); server = s } in
      let self : (p == p) ≡ true = ==_self p in
      (
        t,
        rw (client, goes) refl,
        record {
          ends = λ q once. elim (Bool-cases (p == q)) [
            | inl here ↦
                let at : p ≡ q = ground arith in
                subst (λ a. Rests ids a t) at (y', d, rw self refl, end', same_id ∙ uid)
            | inr there ↦
                Rests-Same ids q r t (rw there refl, elsewhere q (λ e. ground arith))
                  (v.ends q once)
          ];
          listed = ap (λ (u : Server CustomMsgTypes). u.connections) only ∙ v.listed;
          none_waits = ap (λ (u : Server CustomMsgTypes). u.messages_in) only ∙ v.none_waits;
        },
      )

  -- The room in which the others are still to hear.
  abbrev asked : ℕ → Connection CustomMsgTypes → Connection CustomMsgTypes → Room → Room
  asked p y c r = record {
    clients = update r.clients p (rested y);
    server = greeted_by codec p ps c r.server;
  }

  others-Waits :
      (p : ℕ) (y c : Connection CustomMsgTypes) (r : Room)
      → Quiet ids ps r
      → (q : ℕ) → times q (others p ps) ≡ 1
      → Waits c.id ids q (asked p y c r)
  others-Waits p y c r v q once =
      let apart : (p == q) ≡ false = others_apart p q ps (omega arith) in
      let listed : times q ps ≡ 1 = sym (times-others p q ps apart) ∙ once in
      let (y', d, client, end, uid) = v.ends q listed in
      let other : q ≢ p = λ e. ground arith in
      (y', d, rw apart client, posted_to codec p q ps c d r.server end other listed, uid)

  all_stay :
      (p : ℕ) (y c : Connection CustomMsgTypes) (r : Room)
      → ((q : ℕ) → times q ps ≤ 1)
      → Quiet ids ps r
      → (asked p y c r).server.connections ≡ map some ps
  all_stay p y c r once v =
      let heap = (reached_by codec p c r.server).heap in
      let up : (q : ℕ) → 0 < times q ps → (heap q).is_open ≡ true = λ q listed.
        elim (Bool-cases (p == q)) [
          | inl here ↦ rw here refl
          | inr there ↦
              let most = once q in
              let (y', d, client, end, uid) = v.ends q (omega arith) in
              rw there (ap (λ (e : Connection CustomMsgTypes). e.is_open) end)
        ] in
      ap (map some) (survivors_all (λ q. (heap q).is_open) ps up)

  greet_answered :
      (p : ℕ) (clocks : ℕ → List ℕ) (r : Room)
      → ((q : ℕ) → times q ps ≤ 1)
      → ((q : ℕ) → ids q < 2 ^ 32)
      → times p ps ≡ 1
      → Quiet ids ps r
      → (t : Room) × (answer codec ps (greets p clocks) r
          ≡ some (expected ids ps (greets p clocks), t))
        × Quiet ids ps t
  greet_answered p clocks r once narrow asks v =
      let (y, c, client, end, uid) = v.ends p asks in
      let u = asked p y c r in
      let small : c.id < 2 ^ 32 = let fits = narrow p in omega (arith, uid) in
      let sent = greet_lem codec p ps y c r.server v.none_waits v.listed end in
      let fewer : (q : ℕ) → times q (others p ps) ≤ 1 = λ q. times-others_le p q ps (once q) in
      let (t, hear, ends, same, only) =
        hear_all_lem codec ids c.id clocks (others p ps) u small fewer (others-Waits p y c r v) in
      let self : (p == p) ≡ true = ==_self p in
      (
        t,
        rw (client, sent, hear) (ap (λ i. some (told i (others p ps), t)) uid),
        record {
          ends = λ q listed. elim (Bool-cases (p == q)) [
            | inl here ↦
                let at : p ≡ q = ground arith in
                subst (λ a. Rests ids a t) at
                  (Rests-Same ids p u t (same p (times-others_self p ps)) (
                    y,
                    asked_end codec p c,
                    rw self refl,
                    posted_to_self codec p ps c r.server,
                    uid,
                  ))
            | inr there ↦ ends q (times-others p q ps there ∙ listed)
          ];
          listed = ap (λ (s : Server CustomMsgTypes). s.connections) only ∙ all_stay p y c r once v;
          none_waits = ap (λ (s : Server CustomMsgTypes). s.messages_in) only;
        },
      )

  answered :
      (q : Request) (r : Room)
      → ((p : ℕ) → times p ps ≤ 1)
      → ((p : ℕ) → ids p < 2 ^ 32)
      → Asks ps q
      → Quiet ids ps r
      → (t : Room) × (answer codec ps q r ≡ some (expected ids ps q, t)) × Quiet ids ps t
  answered (pings p now read_at) r once narrow (asks, e) v = ping_answered p now read_at r e asks v
  answered (greets p clocks) r once narrow asks v = greet_answered p clocks r once narrow asks v

  -- The chat does what it promises. While every connection of the list is open and at rest at both
  -- ends, and no message waits at the server, the clients of these connections may ask for
  -- anything, one after another: a ping is printed by the client that sent it, as the ticks of its
  -- clock since it was sent; a message to all is printed by each of the others as the id of the
  -- connection of the client that sent it, in the order of the list, in which their turns come; and
  -- nobody prints anything else. Nothing gets stuck, and then the list is the same, and all its
  -- connections are at rest again. A connection is listed at most once, ids fit in 32 bits, a clock
  -- has eight bytes, does not go back and shows a time from 1970 on, and the layout of the header
  -- is any.
  pub chat_lem :
      (qs : List Request) (r : Room)
      → ((p : ℕ) → times p ps ≤ 1)
      → ((p : ℕ) → ids p < 2 ^ 32)
      → All (Asks ps) qs
      → Quiet ids ps r
      → (t : Room) × (chat codec ps qs r ≡ some (all_expected ids ps qs, t)) × Quiet ids ps t
  unfolding chat
  chat_lem [] r once narrow asks v = (r, refl, v)
  chat_lem (q ∷ qs) r once narrow (ask, asks) v =
      let (t, first, w) = answered q r once narrow ask v in
      let (u, rest, last) = chat_lem qs t once narrow asks w in (u, rw (first, rest) refl, last)
