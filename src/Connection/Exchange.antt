-- ===== src/Connection/Exchange.antt =====
-- One message from an end of a connection that is at rest to another (net_connection.h).
use network_study.Prelude.{
  ℕ, ◌≡◌, refl, sym, ap, ◌∙◌, false, List, [], ◌∷◌, ◌++◌, append-nil, Option, some, ◌>>=◌, length,
  ltb, nil_of_length, Bool-cases, inl, inr,
}
use network_study.TsQueue.{front, push_back, pop_front, empty}
use network_study.Message.{Message}
use network_study.Connection.{
  Codec, Post, post_send, WriteOp, writing_header, writing_body, reading_header, Connection,
  on_send, write_header, write_body, write_next, on_write_header, on_write_body,
}
use network_study.Connection.Handlers.{run_post, run_posts, run_write, run_writes}
use network_study.Connection.Writing.{frame}
use network_study.Connection.Reading.{Fits, receive, reads_of, arrived}
use network_study.Connection.Receiving.{receive_one}

-- The bytes of the write that is under way.
abbrev pub on_the_wire : List WriteOp → List ℕ
on_the_wire [] = []
on_the_wire (writing_header bytes ∷ ws) = bytes
on_the_wire (writing_body bytes ∷ ws) = bytes

module _ {ℓ} {T : Type ℓ} (codec : Codec T) where
  -- The write that is under way completes, if there is one.
  abbrev pub complete : Connection T → Option (List ℕ × Connection T)
  complete c = run_write codec false c >>= λ d. some (on_the_wire c.writes, d)

  -- The oldest handler that was posted, and then two writes: what goes out.
  unfoldable pub send_one : Connection T → Option (List ℕ × Connection T)
  unfolding run_post run_write
  send_one c = do
    posted ← run_post codec c
    (header, headed) ← complete posted
    (body, sent) ← complete headed
    some (header ++ body, sent)

  -- An end at rest that is to send a message sends its frame, and is at rest again.
  pub send_one_lem :
      (c : Connection T) (m : Message T) (ps : List (Post T))
      → send_one (record c { posts = post_send m ∷ ps; send_deq = []; writes = [] })
        ≡ some (frame codec m, record c { posts = ps; send_deq = []; writes = [] })
  unfolding send_one run_post run_posts run_write run_writes on_send on_write_header on_write_body
      write_header write_body write_next front push_back pop_front empty
  send_one_lem c m ps = elim (Bool-cases (ltb 0 (length m.body))) [
    | inl more ↦ rw (send_one, more) refl
    | inr last ↦
        let none_left : m.body ≡ [] = nil_of_length m.body last in
        rw (send_one, last)
          (ap
            (λ b.
              some
                (codec.encode m.header ++ b, record c { posts = ps; send_deq = []; writes = [] }))
            (sym none_left))
  ]

  -- An end that waits for a header gets it.
  pub receive-frame :
      (c : Connection T) (m : Message T)
      → c.reads ≡ reading_header ∷ []
      → Fits m
      → receive codec (reads_of (m ∷ [])) c (frame codec m) ≡ (arrived codec c m, [])
  unfolding receive
  receive-frame c m waits fits =
      ap (receive codec (reads_of (m ∷ [])) c) (sym (append-nil (frame codec m)))
      ∙ receive_one codec [] c m [] waits fits
