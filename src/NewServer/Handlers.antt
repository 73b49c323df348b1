-- ===== src/NewServer/Handlers.antt =====
-- What the handlers of NewServer.cpp keep.
use network_study.Prelude.{
  ℕ, ◌%◌, ◌^◌, ◌≡◌, ◌≤◌, ◌<◌, inl, inr, refl, sym, ap, ◌∙◌, ◌==◌, Bool, true, false, ◌∷◌, some,
  if◌then◌else◌, Bool-cases, arith,
}
use network_study.Prelude.Int.{ℤ, pos, negsuc}
use network_study.Bytes.{write, padded, write-replicate, has_end-padded}
use network_study.Select.{Received, ended, failed, bytes, Round, greeting, FdSets, go, then_flow}
use network_study.NewServer.{
  greeted, connected, disconnected, input, event, Server, blank, usort, is_master, watch_client,
  handle_new_connection, close_client, recv_input_from_existing, handle,
}
use network_study.NewServer.Watching.{
  blank_lem, Short, Narrow, Watches, Keeps, event-Watches, call_set, watching, watching-Watches,
}

module _ (w : FdSets) where
  watch_client-Watches :
      (fd : ℕ) (name_found : Bool) (s : Server w.FdSet)
      → fd < 65536
      → Watches w s
      → Watches w (watch_client w fd name_found s)
        × (s.maxfd ≤ (watch_client w fd name_found s).maxfd)
  unfolding watch_client
  watch_client-Watches fd true s small v =
      let (u, grown) = watching-Watches w fd s small v in
      (event-Watches w (greeted fd greeting) (watching w fd s) u, grown)
  watch_client-Watches fd false s small v = watching-Watches w fd s small v

  temp_socket-Watches :
      (accepted : ℤ) (s : Server w.FdSet)
      → Watches w s
      → Watches w (record s { temp_socket = accepted })
  temp_socket-Watches accepted s v = record {
    below = v.below;
    narrow = v.narrow;
    cleared = v.cleared;
    callbacks = v.callbacks;
  }

  close_client-Watches :
      (fd : ℕ) (s : Server w.FdSet) → Watches w s → Watches w (close_client w fd s)
  unfolding close_client
  close_client-Watches fd s v = record {
    below = λ a h. elim (Bool-cases (fd == a)) [
      | inl same ↦ absurd (
          cc (
            w.is_set-clr a fd s.masterfds,
            ap (λ b. if b then false else w.is_set a s.masterfds) same,
            h,
          ))
      | inr other ↦ v.below a (
          ap (λ b. if b then false else w.is_set a s.masterfds) (sym other)
          ∙ sym (w.is_set-clr a fd s.masterfds)
          ∙ h)
    ];
    narrow = v.narrow;
    cleared = v.cleared;
    callbacks = v.callbacks;
  }

  recv-Keeps :
      (r : Received) (fd : ℕ) (s : Server w.FdSet)
      → Short r
      → Watches w s
      → Keeps w s (recv_input_from_existing w r fd s)
  unfolding recv_input_from_existing close_client
  recv-Keeps ended fd s short v =
      let (ncc, rc, odc, e0, e1, e2) = v.callbacks in
      let e = disconnected odc (fd % 2 ^ 16) in
      let t = event w e s in
      (
        close_client w fd t,
        ap (λ f. then_flow f (λ t. go (close_client w fd t)))
            (call_set w odc s.disconnect_callback (λ c. disconnected c (fd % 2 ^ 16)) s e2),
        close_client-Watches fd t (event-Watches w e s v),
        omega arith,
      )
  recv-Keeps failed fd s short v =
      (close_client w fd s, refl, close_client-Watches fd s v, omega arith)
  recv-Keeps (bytes x xs) fd s short v =
      let (ncc, rc, odc, e0, e1, e2) = v.callbacks in
      let b = padded 1024 (x ∷ xs) in
      let stored' : write s.buffer 0 (x ∷ xs) ≡ some b =
        ap (λ buffer. write buffer 0 (x ∷ xs)) (v.cleared ∙ blank_lem)
        ∙ write-replicate 1024 (x ∷ xs) (omega arith) in
      (
        event w (input rc (fd % 2 ^ 16) b) (record s { buffer = blank }),
        rw
            (
              recv_input_from_existing,
              stored',
              has_end-padded 1024 (x ∷ xs) (omega arith),
              call_set w rc s.receive_callback (λ c. input c (fd % 2 ^ 16) b)
                  (record s { buffer = b }) e1,
            )
            refl,
        record { below = v.below; narrow = v.narrow; cleared = refl; callbacks = v.callbacks },
        omega arith,
      )

  new_connection-Keeps :
      (accepted : ℤ) (name_found : Bool) (s : Server w.FdSet)
      → Narrow accepted
      → Watches w s
      → Keeps w s (handle_new_connection w accepted name_found s)
  unfolding handle_new_connection
  new_connection-Keeps (negsuc n) name_found s small v =
      let (ncc, rc, odc, e0, e1, e2) = v.callbacks in
      let e = λ (c : ℕ). connected c (usort (negsuc n)) in
      let t = record s { temp_socket = negsuc n } in
      let u = temp_socket-Watches (negsuc n) s v in
      (
        event w (e ncc) t,
        call_set w ncc t.new_connection_callback e t e0,
        event-Watches w (e ncc) t u,
        omega arith,
      )
  new_connection-Keeps (pos fd) name_found s small v =
      let e = λ (c : ℕ). connected c (usort (pos fd)) in
      let t = record s { temp_socket = pos fd } in
      let next = watch_client w fd name_found t in
      let (u, grown) =
        watch_client-Watches fd name_found t small (temp_socket-Watches (pos fd) s v) in
      let (ncc, rc, odc, e0, e1, e2) = u.callbacks in
      (
        event w (e ncc) next,
        call_set w ncc next.new_connection_callback e next e0,
        event-Watches w (e ncc) next u,
        grown,
      )

  -- The master socket is served by accepting a client, every other by reading from it.
  pub handle-Keeps :
      (r : Round w.FdSet) (fd : ℕ) (s : Server w.FdSet)
      → Narrow r.accepted
      → Short (r.received fd)
      → Watches w s
      → Keeps w s (handle w r fd s)
  unfolding handle
  handle-Keeps r fd s small short v = elim (Bool-cases (is_master s.master_socket fd)) [
    | inl master ↦ rw (handle, master) (new_connection-Keeps r.accepted r.name_found s small v)
    | inr other ↦ rw (handle, other) (recv-Keeps (r.received fd) fd s short v)
  ]
