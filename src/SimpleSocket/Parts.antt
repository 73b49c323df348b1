-- ===== src/SimpleSocket/Parts.antt =====
-- Packets that come in parts (`UpdateServer`, SimpleSocket.cpp).
use network_study.Prelude.{
  ℕ, zero, suc, false, ◌+◌, ◌≡◌, ◌≤◌, ◌<◌, refl, sym, ap, ◌∙◌, List, [], ◌∷◌, ◌++◌, length, drop,
  arith, length-drop, length-append, append_assoc, append-nil,
}
use network_study.Prelude.Int.{is_positive}
use network_study.SimpleSocket.{Outcome, done, fault, running, SimpleSocket, recv_done, on_received}
use network_study.SimpleSocket.Receiving.{
  message, arrived, on_received-first, on_received-next, on_received-whole,
}
use network_study.SimpleSocket.Splitting.{recv_done_waits, arrived_twice}

-- What `recv` returns in one update is not empty: its first byte and the others.
abbrev pub Part : Type 0
Part = ℕ × List ℕ

abbrev pub joined : List Part → List ℕ
joined [] = []
joined ((x, xs) ∷ parts) = (x ∷ xs) ++ joined parts

-- One update after another.
pub receive_all : ℕ → List Part → SimpleSocket → Outcome SimpleSocket
receive_all fuel [] s = done s
receive_all fuel ((x, xs) ∷ parts) s = elim (on_received fuel (x ∷ xs) s) [
  | done t ↦ receive_all fuel parts t
  | fault ↦ fault
  | running ↦ running
]

-- Some parts after others.
abbrev pub then_receive : ℕ → List Part → Outcome SimpleSocket → Outcome SimpleSocket
then_receive fuel parts o = elim o [
  | done t ↦ receive_all fuel parts t
  | fault ↦ fault
  | running ↦ running
]

pub receive_all-append :
    (fuel : ℕ) (ps qs : List Part) (s : SimpleSocket)
    → receive_all fuel (ps ++ qs) s ≡ then_receive fuel qs (receive_all fuel ps s)
unfolding receive_all
receive_all-append fuel [] qs s = refl
receive_all-append fuel ((x, xs) ∷ ps) qs s =
    elim (on_received fuel (x ∷ xs) s)
      as (λ o. then_receive fuel (ps ++ qs) o ≡ then_receive fuel qs (then_receive fuel ps o)) [
        | done t ↦ receive_all-append fuel ps qs t
        | fault ↦ refl
        | running ↦ refl
      ]

pub receive_all-nil : (fuel : ℕ) (s : SimpleSocket) → receive_all fuel [] s ≡ done s
unfolding receive_all
receive_all-nil fuel s = refl

receive_all_cons :
    (fuel x : ℕ) (xs : List ℕ) (parts : List Part) (s t : SimpleSocket)
    → on_received fuel (x ∷ xs) s ≡ done t
    → receive_all fuel ((x, xs) ∷ parts) s ≡ receive_all fuel parts t
unfolding receive_all
receive_all_cons fuel x xs parts s t e =
    ap
      (λ (o : Outcome SimpleSocket). elim o as (λ _. Outcome SimpleSocket) [
        | done u ↦ receive_all fuel parts u
        | fault ↦ fault
        | running ↦ running
      ])
      e

-- A part that comes behind `acc`.
on_received-behind :
    (fuel y : ℕ) (acc ys : List ℕ) (s : SimpleSocket)
    → length s.recv_buffer.buffer ≡ 4096
    → 0 < length acc
    → length acc + length (y ∷ ys) ≤ 4096
    → on_received fuel (y ∷ ys) (arrived 0 acc s) ≡ recv_done fuel (arrived 0 (acc ++ (y ∷ ys)) s)
on_received-behind fuel y acc ys s l some_bytes bound =
    let t = arrived 0 acc s in
    let full : length t.recv_buffer.buffer ≡ 4096 = omega (
      arith,
      length-append acc (drop (0 + length acc) s.recv_buffer.buffer),
      length-drop (0 + length acc) s.recv_buffer.buffer,
    ) in
    on_received-next fuel (0 + length acc) y ys t full refl (omega arith) (omega arith)
    ∙ ap (recv_done fuel) (arrived_twice acc (y ∷ ys) s)

module _ (fuel size command : ℕ) (payload : List ℕ) (s t : SimpleSocket)
    (l : length s.recv_buffer.buffer ≡ 4096) (p : is_positive s.recv_buffer.total_size ≡ false)
    (e : length payload ≡ size) (bound : size ≤ 4091)
    (goes : on_received (suc fuel) (message size command payload) s ≡ done t) where
  -- The parts that are still to come.
  rest_comes :
      (x : ℕ) (xs : List ℕ) (parts : List Part)
      → (x ∷ xs) ++ joined parts ≡ message size command payload
      → length (x ∷ xs) < size + 5
      → receive_all (suc fuel) parts (arrived 0 (x ∷ xs) s) ≡ done t
  unfolding receive_all
  rest_comes x xs [] whole short =
      absurd (omega (arith, ap length whole, length-append (x ∷ xs) []))
  rest_comes x xs ((y, ys) ∷ []) whole short =
      let acc = (x ∷ xs) ++ (y ∷ ys) in
      let all : acc ≡ message size command payload =
        ap (λ zs. (x ∷ xs) ++ zs) (sym (append-nil (y ∷ ys))) ∙ whole in
      let len : length (x ∷ xs) + length (y ∷ ys) ≡ size + 5 =
        sym (length-append (x ∷ xs) (y ∷ ys)) ∙ ap length all ∙ omega arith in
      receive_all_cons (suc fuel) y ys [] (arrived 0 (x ∷ xs) s) t (
        on_received-behind (suc fuel) y (x ∷ xs) ys s l (omega arith) (omega arith)
        ∙ sym (
            on_received-first (suc fuel) x (xs ++ (y ∷ ys)) s l p
              (omega (arith, length-append (x ∷ xs) (y ∷ ys))))
        ∙ ap (λ bytes. on_received (suc fuel) bytes s) all
        ∙ goes)
  rest_comes x xs ((y, ys) ∷ (z, zs) ∷ parts) whole short =
      let acc = (x ∷ xs) ++ (y ∷ ys) in
      let later = joined ((z, zs) ∷ parts) in
      let all : acc ++ later ≡ message size command payload =
        append_assoc (x ∷ xs) (y ∷ ys) later ∙ whole in
      let len : length acc + length later ≡ size + 5 =
        sym (length-append acc later) ∙ ap length all ∙ omega arith in
      let more : length acc < size + 5 = omega (arith, length-append (z ∷ zs) (joined parts)) in
      receive_all_cons (suc fuel) y ys ((z, zs) ∷ parts) (arrived 0 (x ∷ xs) s) (arrived 0 acc s) (
        on_received-behind (suc fuel) y (x ∷ xs) ys s l (omega arith)
          (omega (arith, length-append (x ∷ xs) (y ∷ ys)))
        ∙ recv_done_waits fuel size command payload acc later s l more bound all)
      ∙ rest_comes x (xs ++ (y ∷ ys)) ((z, zs) ∷ parts) all more

  pub all_come :
      (parts : List Part)
      → joined parts ≡ message size command payload
      → receive_all (suc fuel) parts s ≡ done t
  unfolding receive_all
  all_come [] whole = absurd (omega (arith, ap length whole))
  all_come ((x, xs) ∷ []) whole =
      receive_all_cons (suc fuel) x xs [] s t
        (ap (λ bytes. on_received (suc fuel) bytes s) (sym (append-nil (x ∷ xs)) ∙ whole) ∙ goes)
  all_come ((x, xs) ∷ (y, ys) ∷ parts) whole =
      let later = joined ((y, ys) ∷ parts) in
      let len : length (x ∷ xs) + length later ≡ size + 5 =
        sym (length-append (x ∷ xs) later) ∙ ap length whole ∙ omega arith in
      let short : length (x ∷ xs) < size + 5 =
        omega (arith, length-append (y ∷ ys) (joined parts)) in
      receive_all_cons (suc fuel) x xs ((y, ys) ∷ parts) s (arrived 0 (x ∷ xs) s) (
        on_received-first (suc fuel) x xs s l p (omega arith)
        ∙ recv_done_waits fuel size command payload (x ∷ xs) later s l short bound whole)
      ∙ rest_comes x xs ((y, ys) ∷ parts) whole short

-- A packet with up to 4091 bytes of data may come in any number of parts, none of them empty, while the
-- receive buffer counts no bytes: `RecvDone` waits until it is complete, and the parts together have the
-- effect of the whole packet. A bound of two rounds is enough.
pub receive_all_lem :
    (fuel size command : ℕ) (payload : List ℕ) (parts : List Part) (s : SimpleSocket)
    → length s.recv_buffer.buffer ≡ 4096
    → is_positive s.recv_buffer.total_size ≡ false
    → length payload ≡ size
    → size ≤ 4091
    → 1 < fuel
    → joined parts ≡ message size command payload
    → (t : SimpleSocket) × (receive_all fuel parts s ≡ done t)
      × (on_received fuel (message size command payload) s ≡ done t)
receive_all_lem zero size command payload parts s l p e bound enough whole = absurd (omega arith)
receive_all_lem (suc fuel) size command payload parts s l p e bound enough whole =
    let (b, full, came) = on_received-whole (suc fuel) size command payload s l p e bound enough in
    (_, all_come fuel size command payload s _ l p e bound came parts whole, came)
