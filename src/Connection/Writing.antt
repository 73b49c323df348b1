-- ===== src/Connection/Writing.antt =====
-- The sending side of net_connection.h: `Send`, `WriteHeader` and `WriteBody`.
use network_study.Prelude.{
  ℕ, ◌≡◌, refl, sym, ap, ◌∙◌, ◌⊎◌, inl, inr, Bool, true, false, List, [], ◌∷◌, ◌++◌, append_assoc,
  append-nil, some, length, arith, take, drop, take-append-drop, nil_of_length, Bool-cases, ltb,
}
use network_study.Message.{Message}
use network_study.Connection.{
  Codec, WriteOp, writing_header, writing_body, Connection, write_next, on_write_header,
  on_write_body, on_send,
}
use network_study.Connection.System.{Net}

module _ {ℓ} {T : Type ℓ} (codec : Codec T) where
  -- What a message looks like on the wire, and a sequence of messages.
  abbrev pub frame : Message T → List ℕ
  frame m = codec.encode m.header ++ m.body

  abbrev pub frames : List (Message T) → List ℕ
  frames [] = []
  frames (m ∷ ms) = frame m ++ frames ms

  pub frames-append : (ms ns : List (Message T)) → frames (ms ++ ns) ≡ frames ms ++ frames ns
  frames-append [] ns = refl
  frames-append (m ∷ ms) ns =
      ap (◌++◌ (frame m)) (frames-append ms ns)
      ∙ sym (append_assoc (frame m) (frames ms) (frames ns))

  -- Where the sending side stands, with what is still to go out.
  pub data Phase (failed : Bool) (writes : List WriteOp) (q : List (Message T)) (out : List ℕ)
      (accepted : List (Message T)) : Type ℓ where
    quiet :
        failed ≡ false
        → writes ≡ []
        → q ≡ []
        → out ≡ frames accepted
        → Phase failed writes q out accepted
    in_header :
        (m : Message T) (r : List (Message T))
        → failed ≡ false
        → writes ≡ writing_header (codec.encode m.header) ∷ []
        → q ≡ m ∷ r
        → out ++ frames (m ∷ r) ≡ frames accepted
        → Phase failed writes q out accepted
    in_body :
        (m : Message T) (r : List (Message T))
        → failed ≡ false
        → writes ≡ writing_body m.body ∷ []
        → q ≡ m ∷ r
        → out ++ (m.body ++ frames r) ≡ frames accepted
        → Phase failed writes q out accepted
    broken :
        (rest : List ℕ) (m : Message T) (r : List (Message T))
        → failed ≡ true
        → writes ≡ []
        → q ≡ m ∷ r
        → out ++ rest ≡ frames accepted
        → Phase failed writes q out accepted

  abbrev pub PhaseOf : Net T → Type ℓ
  PhaseOf s = Phase s.failed s.peer.writes s.peer.send_deq s.out s.accepted

  pub write_next-Phase :
      (c : Connection T) {d : Connection T} {m : Message T} (r : List (Message T)) (out : List ℕ)
      (acc : List (Message T))
      → c.writes ≡ []
      → c.send_deq ≡ m ∷ r
      → out ++ frames r ≡ frames acc
      → write_next codec c ≡ some d
      → Phase false d.writes d.send_deq out acc
  unfolding write_next
  write_next-Phase c [] out acc w q e h =
      quiet refl (ground arith) (ground arith) (sym (append-nil out) ∙ e)
  write_next-Phase c (n ∷ r) out acc w q e h = in_header n r refl (ground arith) (ground arith) e

  pub on_write_header-Phase :
      (c : Connection T) {d : Connection T} (m : Message T) (r : List (Message T)) (out : List ℕ)
      (acc : List (Message T))
      → c.writes ≡ []
      → c.send_deq ≡ m ∷ r
      → out ++ frames (m ∷ r) ≡ frames acc
      → on_write_header codec false c ≡ some d
      → Phase false d.writes d.send_deq (out ++ codec.encode m.header) acc
  unfolding on_write_header
  on_write_header-Phase c {d} m r out acc w q e h =
      let regroup : (out ++ codec.encode m.header) ++ (m.body ++ frames r) ≡ frames acc =
        simp append_assoc (simp append_assoc at e) in
      elim (Bool-cases (ltb 0 (length m.body))) [
        | inl more ↦ in_body m r refl (ground arith) (ground arith) regroup
        | inr last ↦
            write_next-Phase c {d = d} r (out ++ codec.encode m.header) acc w q
              (rw (nil_of_length m.body last) at regroup) (ground arith)
      ]

  -- The stream still to come, when one more message is accepted.
  frames-accept :
      (out rest : List ℕ) (acc : List (Message T)) (msg : Message T)
      → out ++ rest ≡ frames acc
      → out ++ (rest ++ frames (msg ∷ [])) ≡ frames (acc ++ (msg ∷ []))
  frames-accept out rest acc msg e =
      rw (← append_assoc out rest (frames (msg ∷ [])), e) (sym (frames-append acc (msg ∷ [])))

  pub on_send-Phase :
      (c : Connection T) {d : Connection T} {failed : Bool} (msg : Message T) (out : List ℕ)
      (acc : List (Message T))
      → Phase failed c.writes c.send_deq out acc
      → on_send codec msg c ≡ some d
      → Phase failed d.writes d.send_deq out (acc ++ (msg ∷ []))
  unfolding on_send
  on_send-Phase c msg out acc (quiet f w q e) h =
      in_header msg [] f (ground arith) (ground arith)
        (frames-accept out [] acc msg (append-nil out ∙ e))
  on_send-Phase c msg out acc (in_header m r f w q e) h =
      in_header m (r ++ (msg ∷ [])) f (ground arith) (ground arith) (
        ap (◌++◌ out) (frames-append (m ∷ r) (msg ∷ []))
        ∙ frames-accept out (frames (m ∷ r)) acc msg e)
  on_send-Phase c msg out acc (in_body m r f w q e) h =
      in_body m (r ++ (msg ∷ [])) f (ground arith) (ground arith) (
        rw (frames-append r (msg ∷ []), ← append_assoc m.body (frames r) (frames (msg ∷ [])))
          (frames-accept out (m.body ++ frames r) acc msg e))
  on_send-Phase c msg out acc (broken rest m r f w q e) h =
      broken (rest ++ frames (msg ∷ [])) m (r ++ (msg ∷ [])) f (ground arith) (ground arith)
        (frames-accept out rest acc msg e)

  cut :
      (k : ℕ) (out b rest all : List ℕ)
      → out ++ (b ++ rest) ≡ all
      → (out ++ take k b) ++ (drop k b ++ rest) ≡ all
  cut k out b rest all e =
      let seam : take k b ++ (drop k b ++ rest) ≡ b ++ rest =
        sym (append_assoc (take k b) (drop k b) rest)
        ∙ ap (λ x. x ++ rest) (take-append-drop k b) in
      append_assoc out (take k b) (drop k b ++ rest) ∙ ap (◌++◌ out) seam ∙ e

  pub wrote_header-Phase :
      (c : Connection T) {d : Connection T} {failed : Bool} {b : List ℕ} {ws : List WriteOp}
      (out : List ℕ) (acc : List (Message T))
      → Phase failed c.writes c.send_deq out acc
      → c.writes ≡ writing_header b ∷ ws
      → on_write_header codec false (record c { writes = ws }) ≡ some d
      → Phase failed d.writes d.send_deq (out ++ b) acc
  wrote_header-Phase c out acc (quiet f w q e) p h = cc
  wrote_header-Phase c {d = d} {b = b} {ws = ws} out acc (in_header m r f w q e) p h =
      let same : b ≡ codec.encode m.header = ground arith in
      rw (f, same)
        (on_write_header-Phase (record c { writes = ws }) {d = d} m r out acc (ground arith) q e h)
  wrote_header-Phase c out acc (in_body m r f w q e) p h = cc
  wrote_header-Phase c out acc (broken rest m r f w q e) p h = cc

  pub wrote_body-Phase :
      (c : Connection T) {d : Connection T} {failed : Bool} {b : List ℕ} {ws : List WriteOp}
      (out : List ℕ) (acc : List (Message T))
      → Phase failed c.writes c.send_deq out acc
      → c.writes ≡ writing_body b ∷ ws
      → on_write_body codec false (record c { writes = ws }) ≡ some d
      → Phase failed d.writes d.send_deq (out ++ b) acc
  unfolding on_write_body
  wrote_body-Phase c out acc (quiet f w q e) p h = cc
  wrote_body-Phase c out acc (in_header m r f w q e) p h = cc
  wrote_body-Phase c {d = d} {b = b} {ws = ws} out acc (in_body m r f w q e) p h =
      let same : b ≡ m.body = ground arith in
      rw (f, same)
        (write_next-Phase (record c { writes = ws }) {d = d} r (out ++ m.body) acc (ground arith) q
          (append_assoc out m.body (frames r) ∙ e) h)
  wrote_body-Phase c out acc (broken rest m r f w q e) p h = cc

  pub failed-Phase :
      (c : Connection T) {failed : Bool} {b : List ℕ} {op : WriteOp} {ws : List WriteOp} (k : ℕ)
      (out : List ℕ) (acc : List (Message T))
      → Phase failed c.writes c.send_deq out acc
      → c.writes ≡ op ∷ ws
      → (op ≡ writing_header b) ⊎ (op ≡ writing_body b)
      → Phase true ws c.send_deq (out ++ take k b) acc
  failed-Phase c k out acc (quiet f w q e) p h = cc
  failed-Phase c {b = b} k out acc (in_header m r f w q e) p h =
      let same : b ≡ codec.encode m.header = ground arith in
      broken (drop k b ++ (m.body ++ frames r)) m r refl (ground arith) q (
        cut k out b (m.body ++ frames r) (frames acc) (
          rw same
            (ap (◌++◌ out) (sym (append_assoc (codec.encode m.header) m.body (frames r))) ∙ e)))
  failed-Phase c {b = b} k out acc (in_body m r f w q e) p h =
      let same : b ≡ m.body = ground arith in
      broken (drop k b ++ frames r) m r refl (ground arith) q
        (cut k out b (frames r) (frames acc) (rw same e))
  failed-Phase c k out acc (broken rest m r f w q e) p h = cc
