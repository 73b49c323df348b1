-- ===== src/ServerMain/Ending.antt =====
-- How the program of Server.cpp ends.
use network_study.Prelude.{
  ℕ, ◌≡◌, ◌≢◌, ◌≤◌, ◌<◌, ◌⊎◌, inl, inr, refl, ap, ◌∙◌, ◌==◌, Bool, true, false, List, [], ◌∷◌, ◌++◌,
  if◌then◌else◌, append_assoc, arith,
}
use network_study.Select.{Received, ended, failed, bytes, Round, FdSets, ret, for_fds, int_max}
use network_study.Select.Scan.{for_fds_first}
use network_study.ServerMain.{
  Event, error, closed, Server, event, read_client, handle, started, one_round, serve,
}

-- One socket is ready, and no other.
abbrev pub OnlyReady : (ℕ → Bool) → ℕ → Type 0
OnlyReady ready fd = (ready fd ≡ true) × ((a : ℕ) → a ≢ fd → ready a ≡ false)

-- A client that is gone.
abbrev pub IsGone : Received → Type 0
IsGone ended = Unit {0}
IsGone failed = Unit {0}
IsGone (bytes x xs) = ⊥

module _ (w : FdSets) where
  -- The server after the client `fd` is gone, with what `recv` reported of it.
  abbrev gone_from : ℕ → List Event → Server w.FdSet → Server w.FdSet
  gone_from fd es s = record s { masterfds = w.clr fd s.masterfds; events = s.events ++ es }

  read_client_returns :
      (got : Received) (fd : ℕ) (s : Server w.FdSet)
      → IsGone got
      → (read_client w got fd s ≡ ret (gone_from fd (closed fd ∷ []) s))
        ⊎ (read_client w got fd s ≡ ret (gone_from fd (error ∷ closed fd ∷ []) s))
  unfolding read_client
  read_client_returns ended fd s gone = inl refl
  read_client_returns failed fd s gone = inr (
      ap (λ es. ret (record s { masterfds = w.clr fd s.masterfds; events = es }))
        (append_assoc s.events (error ∷ []) (closed fd ∷ [])))
  read_client_returns (bytes x xs) fd s gone = absurd gone

  -- What one round returns, main returns.
  serve-one_round :
      (fuel : ℕ) (r : Round w.FdSet) (rounds : List (Round w.FdSet)) (s u : Server w.FdSet)
      → one_round w fuel r s ≡ ret u
      → serve w fuel (r ∷ rounds) s ≡ ret u
  unfolding serve
  serve-one_round fuel r rounds s u returns = rw (serve, returns) refl

  round_returns :
      (fuel fd : ℕ) (r : Round w.FdSet) (s u : Server w.FdSet)
      → OnlyReady (λ a. w.is_set a r.reported) fd
      → r.select_fails ≡ false
      → fd ≢ s.master_socket
      → fd ≤ s.maxfd
      → fd ≤ int_max
      → fd < fuel
      → read_client w (r.received fd) fd (record s { tempfds = r.reported }) ≡ ret u
      → one_round w fuel r s ≡ ret u
  unfolding one_round handle
  round_returns fuel fd r s u only selects other top int enough returns =
      let first = record s { tempfds = r.reported } in
      let client : (s.master_socket == fd) ≡ false = ground (arith, other) in
      let begins : started w r s ≡ first =
        ap (λ b. if b then event w (closed s.master_socket) (event w error first) else first)
          selects in
      let walk =
        for_fds_first (λ t. t.maxfd) (λ a. w.is_set a r.reported) (handle w r) fuel fd 0 first u
          (λ a h. only.1 a (λ e. omega arith)) only.0 (rw (handle, client) returns) (omega arith)
          top int (omega arith) in
      ap (for_fds (λ t. t.maxfd) (λ a. w.is_set a r.reported) (handle w r) fuel 0) begins ∙ walk

  -- When one client leaves or its socket fails, main returns: that client is closed, the master socket
  -- and the other clients are not, and no later round is looked at, whatever comes. This holds in a
  -- round in which `select` reports this client, whose number is an
  -- int up to maxfd, and no other socket.
  pub one_leaves :
      (fuel fd : ℕ) (r : Round w.FdSet) (rounds : List (Round w.FdSet)) (s : Server w.FdSet)
      → OnlyReady (λ a. w.is_set a r.reported) fd
      → r.select_fails ≡ false
      → fd ≢ s.master_socket
      → fd ≤ s.maxfd
      → fd ≤ int_max
      → IsGone (r.received fd)
      → fd < fuel
      → (u : Server w.FdSet) × (serve w fuel (r ∷ rounds) s ≡ ret u)
        × ((u.events ≡ s.events ++ (closed fd ∷ []))
            ⊎ (u.events ≡ s.events ++ (error ∷ closed fd ∷ [])))
  one_leaves fuel fd r rounds s only selects other top int gone enough =
      let first = record s { tempfds = r.reported } in
      let back = λ (u : Server w.FdSet) (e : read_client w (r.received fd) fd first ≡ ret u).
        serve-one_round fuel r rounds s u
          (round_returns fuel fd r s u only selects other top int enough e) in
      elim (read_client_returns (r.received fd) fd first gone) [
        | inl leaves ↦ let u = gone_from fd (closed fd ∷ []) first in (u, back u leaves, inl refl)
        | inr fails ↦
            let u = gone_from fd (error ∷ closed fd ∷ []) first in (u, back u fails, inr refl)
      ]
