-- ===== src/ServerMain/Staying.antt =====
-- The program of Server.cpp from its start on, while no client leaves.
use network_study.Prelude.{
  ℕ, suc, ◌%◌, ◌^◌, ◌≡◌, ◌≤◌, ◌<◌, inl, inr, refl, ap, subst, ◌∙◌, true, false, List, [], ◌∷◌, some,
  if◌then◌else◌, Bool-cases, arith,
}
use network_study.SimpleSocket.{zeros}
use network_study.Select.{Round, FdSets, go, for_fds, ready_from, serve_each}
use network_study.Select.Scan.{for_fds-serve_each}
use network_study.ServerMain.{
  error, closed, Server, Startup, event, start, handle, started, one_round, serve,
}
use network_study.ServerMain.Serving.{Talks, IsInt, Tracks, handle-Keeps}

module _ (w : FdSets) where
  serve_each-Tracks :
      (r : Round w.FdSet) (fds : List ℕ) (s : Server w.FdSet)
      → IsInt r.accepted
      → ((fd : ℕ) → Talks (r.received fd))
      → Tracks w s
      → (u : Server w.FdSet) × (serve_each (handle w r) fds s ≡ go u) × Tracks w u
  unfolding serve_each
  serve_each-Tracks r [] s small talks v = (s, refl, v)
  serve_each-Tracks r (fd ∷ fds) s small talks v =
      let (t, step, v', grown) = handle-Keeps w r fd s small (talks fd) v in
      let (u, rest, last) = serve_each-Tracks r fds t small talks v' in (u, rw step rest, last)

  -- What a round meets: `select` does not fail and reports watched sockets only, an accepted socket is an
  -- int, and every socket that is ready has sent something that leaves room for its end.
  pub record Meets (r : Round w.FdSet) (s : Server w.FdSet) : Type 0 where
    pub selects : r.select_fails ≡ false
    pub reports : (a : ℕ) → w.is_set a r.reported ≡ true → w.is_set a s.masterfds ≡ true
    pub small : IsInt r.accepted
    pub talks : (fd : ℕ) → Talks (r.received fd)

  pub one_round-serve_each :
      (fuel : ℕ) (r : Round w.FdSet) (s : Server w.FdSet)
      → Tracks w s
      → Meets r s
      → 2147483647 < fuel
      → (u : Server w.FdSet) × (one_round w fuel r s ≡ go u)
        × (serve_each
              (handle w r)
              (ready_from (λ a. w.is_set a r.reported) (suc s.maxfd) 0)
              (record s { tempfds = r.reported })
            ≡ go u)
        × Tracks w u
  unfolding one_round
  one_round-serve_each fuel r s v meets enough =
      let ready = λ (a : ℕ). w.is_set a r.reported in
      let first = record s { tempfds = r.reported } in
      let v0 : Tracks w first = record {
        below = v.below;
        int = v.int;
        clear = v.clear;
        kept = v.kept;
      } in
      let (u, serves, last) =
        serve_each-Tracks r (ready_from ready (suc s.maxfd) 0) first meets.small meets.talks v0 in
      let begins : started w r s ≡ first =
        ap (λ b. if b then event w (closed s.master_socket) (event w error first) else first)
          meets.selects in
      let none : (a : ℕ) → s.maxfd < a → ready a ≡ false = λ a h. elim (Bool-cases (ready a)) [
        | inl set ↦ let low = v.below a (meets.reports a set) in absurd (omega arith)
        | inr quiet ↦ quiet
      ] in
      let keep : (a : ℕ) (t t' : Server w.FdSet)
          → Tracks w t × (s.maxfd ≤ t.maxfd)
          → handle w r a t ≡ go t'
          → Tracks w t' × (s.maxfd ≤ t'.maxfd) =
        λ a t t' (vt, low) step.
          let (u', step', vu, grown) = handle-Keeps w r a t meets.small (meets.talks a) vt in
          let one : u' ≡ t' = cc in
          subst (λ x. Tracks w x × (s.maxfd ≤ x.maxfd)) one (vu, omega arith) in
      let walk =
        for_fds-serve_each (λ x. x.maxfd) ready (handle w r) (λ x. Tracks w x × (s.maxfd ≤ x.maxfd))
          s.maxfd 2147483646 (suc s.maxfd) fuel 0 first none (λ t p. (p.1, p.0.int)) keep
          (v0, omega arith) (omega arith) (omega arith) (omega arith) in
      (
        u,
        ap (for_fds (λ t. t.maxfd) ready (handle w r) fuel 0) begins ∙ walk ∙ serves,
        serves,
        last,
      )

  -- The rounds of the loop, each of which meets what it needs in the state that the one before leaves.
  pub data Rounds (fuel : ℕ) : List (Round w.FdSet) → Server w.FdSet → Type 0 where
    no_more : {s : Server w.FdSet} → Rounds fuel [] s
    next :
        {s : Server w.FdSet} {r : Round w.FdSet} {rounds : List (Round w.FdSet)}
        → Meets r s
        → ((u : Server w.FdSet) → one_round w fuel r s ≡ go u → Rounds fuel rounds u)
        → Rounds fuel (r ∷ rounds) s

  serve-Tracks :
      (fuel : ℕ) (rounds : List (Round w.FdSet)) (s : Server w.FdSet)
      → Tracks w s
      → Rounds fuel rounds s
      → 2147483647 < fuel
      → (u : Server w.FdSet) × (serve w fuel rounds s ≡ go u) × Tracks w u
  unfolding serve
  serve-Tracks fuel [] s v no_more enough = (s, refl, v)
  serve-Tracks fuel (r ∷ rounds) s v (next meets later) enough =
      let (t, goes, each, v') = one_round-serve_each fuel r s v meets enough in
      let (u, rest, last) = serve-Tracks fuel rounds t v' (later t goes) enough in
      (u, rw (serve, goes) rest, last)

  -- The server with which the loop begins.
  abbrev pub fresh : ℕ → Server w.FdSet
  fresh sock = record {
    masterfds = w.set sock w.empty;
    tempfds = w.empty;
    maxfd = sock % 2 ^ 32;
    master_socket = sock;
    buffer = zeros;
    events = [];
  }

  start-fresh : (c : Startup) (s : Server w.FdSet) → (start w c).0 ≡ some s → fresh c.sock ≡ s
  unfolding start
  start-fresh c s e = ground arith

  fresh-Tracks : (sock : ℕ) → sock < 2147483647 → Tracks w (fresh sock)
  fresh-Tracks sock small =
      let fits : sock % 2 ^ 32 ≡ sock = omega arith in
      record {
        below = λ a h. elim (w.set_only a sock w.empty h) [
          | inl e ↦ omega (arith, fits)
          | inr old ↦ absurd (cc (w.is_set-empty a, old))
        ];
        int = omega (arith, fits);
        clear = refl;
        kept = tt;
      }

  -- While no client leaves, the program of Server.cpp goes on. If its start succeeds, then after any
  -- rounds all watched sockets are within maxfd, the buffer is clear, and no socket has been closed. This
  -- holds while `select` does not fail and reports watched sockets only, the sockets are ints and none is
  -- the greatest int, past which the `for` could not count, and what is received leaves room for its end.
  -- As many rounds of the `for` as there are ints from 0 on are enough.
  pub stays_up :
      (fuel : ℕ) (c : Startup) (rounds : List (Round w.FdSet)) (s : Server w.FdSet)
      → (start w c).0 ≡ some s
      → c.sock < 2147483647
      → Rounds fuel rounds s
      → 2147483647 < fuel
      → (u : Server w.FdSet) × (serve w fuel rounds s ≡ go u) × Tracks w u
  stays_up fuel c rounds s starts small meets enough =
      serve-Tracks fuel rounds s
        (subst (Tracks w) (start-fresh c s starts) (fresh-Tracks c.sock small)) meets enough
