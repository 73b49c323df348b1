-- ===== src/NewServer/Loop.antt =====
-- A round of `Loop` (NewServer.cpp) as a whole.
use network_study.Prelude.{
  ℕ, some, suc, ◌%◌, ◌^◌, ◌≡◌, ◌≢◌, ◌≤◌, ◌<◌, inl, inr, refl, subst, ◌∙◌, Bool, true, false, List,
  [], ◌∷◌, if◌then◌else◌, lt→ltb, Bool-cases, arith, All,
}
use network_study.Prelude.Int.{pos}
use network_study.Select.{Round, FdSets, Flow, go, ready_from, serve_each, then_flow}
use network_study.Select.Scan.{for_fds-serve_each, for_fds_quiet}
use network_study.NewServer.{
  event, connected, usort, Server, watch_client, handle_new_connection, handle, shutdown, loop,
}
use network_study.NewServer.Watching.{Short, Narrow, Watches, call_set}
use network_study.NewServer.Handlers.{handle-Keeps}

module _ (w : FdSets) where
  -- The state in which the walk over the sockets starts.
  abbrev pub started : Round w.FdSet → Server w.FdSet → Server w.FdSet
  started r s =
      let t = record s { tempfds = r.reported } in if r.select_fails then shutdown w t else t

  started_lem :
      (fails : Bool) (t : Server w.FdSet)
      → Watches w t
      → let u = if fails then shutdown w t else t in Watches w u × (u.maxfd ≡ t.maxfd)
  unfolding shutdown
  started_lem true t v = (
    record { below = v.below; narrow = v.narrow; cleared = v.cleared; callbacks = v.callbacks },
    refl,
  )
  started_lem false t v = (v, refl)

  -- What a failure of `select` leaves alone.
  abbrev SameClients : Server w.FdSet → Server w.FdSet → Type 0
  SameClients u t =
      (u.maxfd ≡ t.maxfd) × (u.masterfds ≡ t.masterfds) × (u.temp_socket ≡ t.temp_socket)

  started_same :
      (fails : Bool) (t : Server w.FdSet) → SameClients (if fails then shutdown w t else t) t
  unfolding shutdown
  started_same true t = (refl, refl, refl)
  started_same false t = (refl, refl, refl)

  watched_maxfd :
      (n : ℕ) (name_found : Bool) (s : Server w.FdSet)
      → s.maxfd < n
      → (watch_client w n name_found s).maxfd ≡ n % 2 ^ 16
  unfolding watch_client
  watched_maxfd n true s above = rw (lt→ltb s.maxfd n above) refl
  watched_maxfd n false s above = rw (lt→ltb s.maxfd n above) refl

  watched_callback :
      (n : ℕ) (name_found : Bool) (s : Server w.FdSet)
      → (watch_client w n name_found s).new_connection_callback ≡ s.new_connection_callback
  unfolding watch_client
  watched_callback n true s = refl
  watched_callback n false s = refl

  accepted_maxfd :
      (ncc n : ℕ) (name_found : Bool) (s : Server w.FdSet)
      → s.new_connection_callback ≡ some ncc
      → s.maxfd < n
      → (t : Server w.FdSet) × (handle_new_connection w (pos n) name_found s ≡ go t)
        × (t.maxfd ≡ n % 2 ^ 16)
  unfolding handle_new_connection
  accepted_maxfd ncc n name_found s set above =
      let next = watch_client w n name_found (record s { temp_socket = pos n }) in
      let e = λ (c : ℕ). connected c (usort (pos n)) in
      (
        event w (e ncc) next,
        call_set w ncc next.new_connection_callback e next (watched_callback n name_found _ ∙ set),
        watched_maxfd n name_found (record s { temp_socket = pos n }) above,
      )

  -- The steps for any list of sockets keep the invariant.
  serve_each-Watches :
      (r : Round w.FdSet) (fds : List ℕ) (s : Server w.FdSet)
      → Narrow r.accepted
      → ((fd : ℕ) → Short (r.received fd))
      → Watches w s
      → (u : Server w.FdSet) × (serve_each (handle w r) fds s ≡ go u) × Watches w u
  unfolding serve_each
  serve_each-Watches r [] s small short v = (s, refl, v)
  serve_each-Watches r (fd ∷ fds) s small short v =
      let (t, step, v', grown) = handle-Keeps w r fd s small (short fd) v in
      let (u, rest, last) = serve_each-Watches r fds t small short v' in (u, rw step rest, last)

  -- `Loop` serves the sockets that `select` reports, each once, in ascending order, and none besides, and
  -- it ends. Afterwards all watched sockets are again within maxfd, and the buffer is clear. This holds
  -- if `select` reports watched sockets only, the accepted socket fits 16 bits, and no message fills the
  -- whole buffer. 65537 rounds are enough.
  pub loop-serve_each :
      (fuel : ℕ) (r : Round w.FdSet) (s : Server w.FdSet)
      → Watches w s
      → ((a : ℕ) → w.is_set a r.reported ≡ true → w.is_set a s.masterfds ≡ true)
      → Narrow r.accepted
      → ((fd : ℕ) → Short (r.received fd))
      → 65536 < fuel
      → (u : Server w.FdSet) × (loop w fuel r s ≡ go u)
        × (serve_each
              (handle w r)
              (ready_from (λ a. w.is_set a r.reported) (suc s.maxfd) 0)
              (started r s)
            ≡ go u)
        × Watches w u
  unfolding loop
  loop-serve_each fuel r s v reports small short enough =
      let ready = λ (a : ℕ). w.is_set a r.reported in
      let first = record s { tempfds = r.reported } in
      let (v0, same) = started_lem r.select_fails first (record {
        below = v.below;
        narrow = v.narrow;
        cleared = v.cleared;
        callbacks = v.callbacks;
      }) in
      let (u, serves, last) =
        serve_each-Watches r (ready_from ready (suc s.maxfd) 0) (started r s) small short v0 in
      let none : (a : ℕ) → s.maxfd < a → ready a ≡ false = λ a h. elim (Bool-cases (ready a)) [
        | inl set ↦ let low = v.below a (reports a set) in absurd (omega arith)
        | inr quiet ↦ quiet
      ] in
      let keep : (a : ℕ) (t t' : Server w.FdSet)
          → Watches w t × (s.maxfd ≤ t.maxfd)
          → handle w r a t ≡ go t'
          → Watches w t' × (s.maxfd ≤ t'.maxfd) =
        λ a t t' (vt, low) step.
          let (u', step', vu, grown) = handle-Keeps w r a t small (short a) vt in
          let one : u' ≡ t' = cc in
          subst (λ x. Watches w x × (s.maxfd ≤ x.maxfd)) one (vu, omega arith) in
      let walk =
        for_fds-serve_each (λ x. x.maxfd) ready (handle w r)
          (λ x. Watches w x × (s.maxfd ≤ x.maxfd)) s.maxfd 65535 (suc s.maxfd) fuel 0 (started r s)
          none (λ t p. (p.1, p.0.narrow)) keep (v0, omega (arith, same)) (omega arith) (omega arith)
          (omega arith) in
      (u, walk ∙ serves, serves, last)

  -- `Loop`, called once for each round.
  abbrev pub loops : ℕ → List (Round w.FdSet) → Server w.FdSet → Flow (Server w.FdSet)
  loops fuel [] s = go s
  loops fuel (r ∷ rounds) s = then_flow (loop w fuel r s) (loops fuel rounds)

  -- Nothing but the master socket `m` is ready, if that.
  abbrev pub OnlyMaster : ℕ → Round w.FdSet → Type 0
  OnlyMaster m r = (a : ℕ) → a ≢ m → w.is_set a r.reported ≡ false

  loop_idle :
      (fuel m : ℕ) (r : Round w.FdSet) (s : Server w.FdSet)
      → s.maxfd < m
      → s.maxfd ≤ 65535
      → OnlyMaster m r
      → 65536 < fuel
      → loop w fuel r s ≡ go (started r s)
  unfolding loop
  loop_idle fuel m r s low narrow only enough =
      let (top, fds, temp) = started_same r.select_fails (record s { tempfds = r.reported }) in
      for_fds_quiet (λ x. x.maxfd) (λ a. w.is_set a r.reported) (handle w r) 65535 fuel 0
        (started r s) (λ a h k. only a (λ e. omega (arith, top))) (omega (arith, top)) (omega arith)
        (omega arith) (omega arith)

  loops_idle :
      (fuel m : ℕ) (rounds : List (Round w.FdSet)) (s : Server w.FdSet)
      → s.maxfd < m
      → s.maxfd ≤ 65535
      → All (OnlyMaster m) rounds
      → 65536 < fuel
      → (u : Server w.FdSet) × (loops fuel rounds s ≡ go u) × SameClients u s
  loops_idle fuel m [] s low narrow only enough = (s, refl, (refl, refl, refl))
  loops_idle fuel m (r ∷ rounds) s low narrow (only, others) enough =
      let next = started r s in
      let (top, fds, temp) = started_same r.select_fails (record s { tempfds = r.reported }) in
      let (u, rest, same) =
        loops_idle fuel m rounds next (omega (arith, top)) (omega (arith, top)) others enough in
      let (top', fds', temp') = same in
      (
        u,
        rw (loops, loop_idle fuel m r s low narrow only enough) rest,
        (top' ∙ top, fds' ∙ fds, temp' ∙ temp),
      )

  -- A client whose socket does not fit 16 bits, and of which the low 16 bits are less than the master
  -- socket, ends the service: in all later rounds in which at most the master socket is ready, `Loop`
  -- does not reach it, and accepts no client that waits. This holds for any bound greater than 65536 on
  -- the steps of a round, if the callback for new connections has been set.
  pub loop_unreachable :
      (fuel ncc n m : ℕ) (name_found : Bool) (rounds : List (Round w.FdSet)) (s : Server w.FdSet)
      → s.master_socket ≡ pos m
      → s.new_connection_callback ≡ some ncc
      → s.maxfd < n
      → n % 2 ^ 16 < m
      → All (OnlyMaster m) rounds
      → 65536 < fuel
      → (t : Server w.FdSet) × (handle_new_connection w (pos n) name_found s ≡ go t)
        × (u : Server w.FdSet) × (loops fuel rounds t ≡ go u)
        × (u.masterfds ≡ t.masterfds)
        × (u.temp_socket ≡ t.temp_socket)
  loop_unreachable fuel ncc n m name_found rounds s master set above low only enough =
      let (t, accepts, top) = accepted_maxfd ncc n name_found s set above in
      let (u, goes, same) =
        loops_idle fuel m rounds t (omega (arith, top)) (omega (arith, top)) only enough in
      let (top', fds, temp) = same in (t, accepts, u, goes, fds, temp)
