-- ===== src/NewServer/Runs.antt =====
-- The server of NewServer.cpp from its start on, over any number of rounds.
use network_study.Prelude.{ℕ, suc, ◌≡◌, ◌<◌, Bool, true, arith, subst}
use network_study.Prelude.Int.{pos}
use network_study.Select.{Round, FdSets, go, ready_from, serve_each}
use network_study.NewServer.{Server, init, handle, loop}
use network_study.NewServer.Watching.{Short, Narrow, Watches, init-Watches, prepared}
use network_study.NewServer.Loop.{started, loop-serve_each}

module _ (w : FdSets) where
  -- What winsock returns in a round: `select` reports watched sockets only, an accepted socket fits 16
  -- bits, and no message fills the whole buffer.
  pub record Comes (r : Round w.FdSet) (s : Server w.FdSet) : Type 0 where
    pub reports : (a : ℕ) → w.is_set a r.reported ≡ true → w.is_set a s.masterfds ≡ true
    pub narrow : Narrow r.accepted
    pub short : (fd : ℕ) → Short (r.received fd)

  -- The states after the constructor, the setters of the callbacks, `Init`, and any number of calls of
  -- `Loop`.
  pub data Runs : Server w.FdSet → Type 0 where
    starts :
        (option_fails : Bool) (ncc rc odc m : ℕ) (memory : Server w.FdSet)
        → m < 65536
        → Runs (init w option_fails (prepared w ncc rc odc (pos m) memory))
    one_more :
        {s t : Server w.FdSet} (r : Round w.FdSet)
        → Runs s
        → Comes r s
        → loop w 65537 r s ≡ go t
        → Runs t

  Runs-Watches : {s : Server w.FdSet} → Runs s → Watches w s
  Runs-Watches (starts option_fails ncc rc odc m memory small) =
      init-Watches w option_fails ncc rc odc m memory small
  Runs-Watches (one_more {s} {t} r before comes ends) =
      let (u, ends', each, v) =
        loop-serve_each w 65537 r s (Runs-Watches before) comes.reports comes.narrow comes.short
          (omega arith) in
      let same : u ≡ t = cc in subst (Watches w) same v

  -- The server of NewServer.cpp never ends by itself, never leaves its buffer, and never calls a
  -- callback that has not been set. In every state that it reaches from its start on, all watched
  -- sockets are within maxfd and the buffer is clear, and the next round serves the sockets that
  -- `select` reports, each once and in ascending order, and ends in such a state. This holds if the
  -- three callbacks are set before `Init`, and while the sockets fit 16 bits, `select` reports
  -- watched sockets only, and no message fills the whole buffer.
  pub run_goes_on :
      (r : Round w.FdSet) (s : Server w.FdSet)
      → Runs s
      → Comes r s
      → Watches w s
        × (t : Server w.FdSet) × (loop w 65537 r s ≡ go t)
        × (serve_each
              (handle w r)
              (ready_from (λ a. w.is_set a r.reported) (suc s.maxfd) 0)
              (started w r s)
            ≡ go t)
        × Runs t
  run_goes_on r s runs comes =
      let v = Runs-Watches runs in
      let (t, ends, each, v') =
        loop-serve_each w 65537 r s v comes.reports comes.narrow comes.short (omega arith) in
      (v, t, ends, each, one_more r runs comes ends)
