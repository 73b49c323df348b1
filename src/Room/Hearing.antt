-- ===== src/Room/Hearing.antt =====
-- The clients that are greeted, one after another.
use network_study.Prelude.{
  ℕ, ◌^◌, ◌<◌, ◌≤◌, ◌≡◌, refl, subst, ◌∙◌, true, false, List, [], ◌∷◌, some, ◌==◌, arith, ==_self,
  Bool-cases, inl, inr,
}
use network_study.Connection.{Codec, Connection, post_send}
use network_study.Connection.Reading.{arrived}
use network_study.Server.{update}
use network_study.Server.Listed.{times, times_apart}
use network_study.SimpleServer.{CustomMsgTypes}
use network_study.SimpleServer.Protocol.{hello_from}
use network_study.Client.{hello}
use network_study.Client.Wire.{end_at}
use network_study.Client.Greeting.{hears_lem}
use network_study.Room.{Room, hear, hear_all, told, rested, Rests}

-- The client is at rest, and the server has posted a greeting to it.
abbrev pub Waits : ℕ → (ℕ → ℕ) → ℕ → Room → Type 0
Waits id ids q r =
    (y c : Connection CustomMsgTypes) × (r.clients q ≡ rested y)
    × (r.server.heap q ≡ record (end_at q c) { posts = post_send (hello_from id) ∷ [] })
    × (c.id ≡ ids q)

-- What one connection holds is as it was.
abbrev pub Same : ℕ → Room → Room → Type 0
Same q r t = (t.clients q ≡ r.clients q) × (t.server.heap q ≡ r.server.heap q)

pub Rests-Same : (ids : ℕ → ℕ) (q : ℕ) (r t : Room) → Same q r t → Rests ids q r → Rests ids q t
Rests-Same ids q r t (e, f) (y, c, g, h, i) = (y, c, e ∙ g, f ∙ h, i)

module _ (codec : Codec CustomMsgTypes) where
  -- The room once `q` has heard.
  abbrev heard_by : ℕ → ℕ → Connection CustomMsgTypes → Connection CustomMsgTypes → Room → Room
  heard_by id q y c r = record {
    clients = update r.clients q (rested (arrived codec (rested y) (hello_from id)));
    server = record r.server { heap = update r.server.heap q (end_at q c) };
  }

  hear_lem :
      (id q : ℕ) (clocks : ℕ → List ℕ) (y c : Connection CustomMsgTypes) (r : Room)
      → r.clients q ≡ rested y
      → r.server.heap q ≡ record (end_at q c) { posts = post_send (hello_from id) ∷ [] }
      → id < 2 ^ 32
      → hear codec clocks q r ≡ some ((q, hello id) ∷ [], heard_by id q y c r)
  hear_lem id q clocks y c r rests posted small =
      rw (rests, hears_lem codec id q (clocks q) y c r.server posted small) refl

  heard-Rests :
      (ids : ℕ → ℕ) (id q : ℕ) (y c : Connection CustomMsgTypes) (r : Room)
      → c.id ≡ ids q
      → Rests ids q (heard_by id q y c r)
  heard-Rests ids id q y c r uid =
      let self : (q == q) ≡ true = ==_self q in
      (arrived codec (rested y) (hello_from id), c, rw self refl, rw self refl, uid)

  heard-Same :
      (id p q : ℕ) (y c : Connection CustomMsgTypes) (r : Room)
      → (p == q) ≡ false
      → Same q r (heard_by id p y c r)
  heard-Same id p q y c r apart = (rw apart refl, rw apart refl)

  -- Every one hears once, in order; then all of them are at rest, and nothing else has changed.
  pub hear_all_lem :
      (ids : ℕ → ℕ) (id : ℕ) (clocks : ℕ → List ℕ) (qs : List ℕ) (r : Room)
      → id < 2 ^ 32
      → ((q : ℕ) → times q qs ≤ 1)
      → ((q : ℕ) → times q qs ≡ 1 → Waits id ids q r)
      → (t : Room) × (hear_all codec clocks qs r ≡ some (told id qs, t))
        × ((q : ℕ) → times q qs ≡ 1 → Rests ids q t)
        × ((q : ℕ) → times q qs ≡ 0 → Same q r t)
        × (t.server ≡ record r.server { heap = t.server.heap })
  unfolding hear_all
  hear_all_lem ids id clocks [] r small once waits =
      (r, refl, λ q e. absurd (omega arith), λ q e. (refl, refl), refl)
  hear_all_lem ids id clocks (p ∷ ps) r small once waits =
      let self : (p == p) ≡ true = ==_self p in
      let gone : times p ps ≡ 0 = let most = once p in ground arith in
      let (y, c, client, posted, uid) = waits p (rw (self, gone) refl) in
      let next = heard_by id p y c r in
      let first = hear_lem id p clocks y c r client posted small in
      let fewer : (q : ℕ) → times q ps ≤ 1 = λ q. let most = once q in ground arith in
      let apart : (q : ℕ) → times q ps ≡ 1 → (p == q) ≡ false = λ q e. times_apart p q ps gone e in
      let still : (q : ℕ) → times q ps ≡ 1 → Waits id ids q next = λ q e.
        let d = apart q e in
        let (y', c', f, g, h) = waits q (rw d e) in (y', c', rw d f, rw d g, h) in
      let (t, rest, ends, same, only) = hear_all_lem ids id clocks ps next small fewer still in
      (
        t,
        rw (first, rest) refl,
        λ q e. elim (Bool-cases (p == q)) [
          | inl here ↦
              let at : p ≡ q = ground arith in
              subst (λ a. Rests ids a t) at
                (Rests-Same ids p next t (same p gone) (heard-Rests ids id p y c r uid))
          | inr there ↦ ends q (rw there at e)
        ],
        λ q e.
            let d : (p == q) ≡ false = ground arith in
            let none_left : times q ps ≡ 0 = ground arith in
            let (f, g) = same q none_left in
            let (f', g') = heard-Same id p q y c r d in (f ∙ f', g ∙ g'),
        only,
      )
