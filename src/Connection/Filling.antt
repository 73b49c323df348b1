-- ===== src/Connection/Filling.antt =====
-- The handlers of a read of net_connection.h return, and leave the connection in order.
use network_study.Prelude.{
  refl, sym, ap, subst, Bool, true, false, List, [], ◌∷◌, some, if◌then◌else◌, All, All-append,
  Bool-cases, inl, inr, ltb,
}
use network_study.Bytes.{resize}
use network_study.Message.{Message}
use network_study.Connection.{
  Codec, ReadOp, reading_header, reading_body, Connection, close, on_read_header, on_read_body,
  read_body, remote_of, add_to_incoming_message_queue,
}
use network_study.Connection.Handlers.{run_reads, run_read}
use network_study.Connection.Returning.{HasSender, Fit, Returns}

module _ {ℓ} {T : Type ℓ} (codec : Codec T) where
  add-Returns :
      (c : Connection T)
      → Fit c
      → All HasSender c.recv_deq
      → Returns c (some (add_to_incoming_message_queue c))
  unfolding add_to_incoming_message_queue
  add-Returns c fit senders =
      let came : All HasSender
          (record { remote = remote_of c.owner_type c.self; msg = c.temp_msg } ∷ []) =
        ((c.self, ap (λ o. remote_of o c.self) fit.owned), tt) in
      (
        add_to_incoming_message_queue c,
        refl,
        record { owned = fit.owned; sending = fit.sending },
        refl,
        All-append HasSender c.recv_deq _ senders came,
      )

  on_read_header-Returns :
      (error : Bool) (c : Connection T)
      → Fit c
      → All HasSender c.recv_deq
      → Returns c (some (on_read_header error c))
  unfolding on_read_header close read_body
  on_read_header-Returns true c fit senders =
      (close c, refl, record { owned = fit.owned; sending = fit.sending }, refl, senders)
  on_read_header-Returns false c fit senders = elim (Bool-cases (ltb 0 c.temp_msg.header.size)) [
    | inl more ↦ (
      on_read_header false c,
      refl,
      rw (on_read_header, more) (record { owned = fit.owned; sending = fit.sending }),
      rw (on_read_header, more) refl,
      rw (on_read_header, more) senders,
    )
    | inr last ↦
        subst
          (λ b. Returns c (
            some (
              if b
              then read_body (record c {
                temp_msg = record {
                  header = c.temp_msg.header;
                  body = resize c.temp_msg.body c.temp_msg.header.size;
                };
              })
              else add_to_incoming_message_queue c)))
          (sym last) (add-Returns c fit senders)
  ]

  on_read_body-Returns :
      (error : Bool) (c : Connection T)
      → Fit c
      → All HasSender c.recv_deq
      → Returns c (some (on_read_body error c))
  unfolding on_read_body close
  on_read_body-Returns true c fit senders =
      (close c, refl, record { owned = fit.owned; sending = fit.sending }, refl, senders)
  on_read_body-Returns false c fit senders = add-Returns c fit senders

  run_reads-Returns :
      (error : Bool) (got : Message T) (rs : List ReadOp) (c : Connection T)
      → Fit c
      → All HasSender c.recv_deq
      → Returns c (run_reads codec error got rs c)
  unfolding run_reads
  run_reads-Returns error got [] c fit senders = (c, refl, fit, refl, senders)
  run_reads-Returns error got (reading_header ∷ rs) c fit senders =
      let filled : Message T = record { header = got.header; body = c.temp_msg.body } in
      on_read_header-Returns error (record c { reads = rs; temp_msg = filled })
        (record { owned = fit.owned; sending = fit.sending }) senders
  run_reads-Returns error got (reading_body size ∷ rs) c fit senders =
      let filled : Message T = record { header = c.temp_msg.header; body = got.body } in
      on_read_body-Returns error (record c { reads = rs; temp_msg = filled })
        (record { owned = fit.owned; sending = fit.sending }) senders

  pub run_read-Returns :
      (error : Bool) (got : Message T) (c : Connection T)
      → Fit c
      → All HasSender c.recv_deq
      → Returns c (run_read codec error got c)
  unfolding run_read
  run_read-Returns error got c = run_reads-Returns error got c.reads c
