-- ===== src/NewServer/Watching.antt =====
-- What NewServer.cpp keeps from its start on: the sockets that it watches, its buffer and its callbacks.
use network_study.Prelude.{
  ℕ, Option, ◌%◌, ◌^◌, ◌≡◌, ◌≤◌, ◌<◌, inl, inr, refl, ap, Bool, true, false, ◌∷◌, some,
  if◌then◌else◌, ltb, length, replicate, arith,
}
use network_study.Prelude.Int.{ℤ, pos, negsuc}
use network_study.Select.{Received, ended, failed, bytes, FdSets, Flow, go}
use network_study.NewServer.{
  Event, event, Server, blank, setup, shutdown, init_socket, bind_socket, init, call, on_connect,
  on_input, on_disconnect, start_listen,
}

pub blank_lem : blank ≡ replicate 1024 0
unfolding blank
blank_lem = refl

-- A message that leaves room for its end is read in bounds.
abbrev pub Short : Received → Type 0
Short ended = Unit {0}
Short failed = Unit {0}
Short (bytes x xs) = length (x ∷ xs) ≤ 1023

-- A descriptor that fits 16 bits, if there is one.
abbrev pub Narrow : ℤ → Type 0
Narrow (pos n) = n < 65536
Narrow (negsuc n) = Unit {0}

module _ (w : FdSets) where
  -- The callbacks have been set.
  abbrev pub HasCallbacks : Server w.FdSet → Type 0
  HasCallbacks s =
      (ncc rc odc : ℕ) × (s.new_connection_callback ≡ some ncc)
      × (s.receive_callback ≡ some rc)
      × (s.disconnect_callback ≡ some odc)

  -- Every watched socket is at most maxfd, which has 16 bits, the buffer is cleared, and the callbacks
  -- have been set.
  pub record Watches (s : Server w.FdSet) : Type 0 where
    pub below : (a : ℕ) → w.is_set a s.masterfds ≡ true → a ≤ s.maxfd
    pub narrow : s.maxfd ≤ 65535
    pub cleared : s.buffer ≡ blank
    pub callbacks : HasCallbacks s

  -- A step goes on, keeps the invariant, and does not lower maxfd.
  abbrev pub Keeps : Server w.FdSet → Flow (Server w.FdSet) → Type 0
  Keeps s f = (u : Server w.FdSet) × (f ≡ go u) × Watches u × (s.maxfd ≤ u.maxfd)

  master_within : (m a : ℕ) → m < 65536 → w.is_set a (w.set m w.empty) ≡ true → a ≤ m % 2 ^ 16
  master_within m a small h =
      let fits : m % 2 ^ 16 ≡ m = omega arith in
      elim (w.set_only a m w.empty h) [
        | inl e ↦ omega (arith, fits)
        | inr old ↦ absurd (cc (w.is_set-empty a, old))
      ]

  -- The server after its constructor and the setters.
  abbrev pub prepared : (ncc rc odc : ℕ) → ℤ → Server w.FdSet → Server w.FdSet
  prepared ncc rc odc sock memory =
      on_disconnect w odc (on_input w rc (on_connect w ncc (setup w sock memory)))

  -- After `Init`, with a master socket of 16 bits.
  pub init-Watches :
      (option_fails : Bool) (ncc rc odc m : ℕ) (memory : Server w.FdSet)
      → m < 65536
      → Watches (init w option_fails (prepared ncc rc odc (pos m) memory))
  unfolding init init_socket bind_socket start_listen shutdown setup on_connect on_input
      on_disconnect
  init-Watches true ncc rc odc m memory small = record {
    below = λ a. master_within m a small;
    narrow = omega arith;
    cleared = refl;
    callbacks = (ncc, rc, odc, refl, refl, refl);
  }
  init-Watches false ncc rc odc m memory small = record {
    below = λ a. master_within m a small;
    narrow = omega arith;
    cleared = refl;
    callbacks = (ncc, rc, odc, refl, refl, refl);
  }

  pub event-Watches : (e : Event) (s : Server w.FdSet) → Watches s → Watches (event w e s)
  event-Watches e s v = record {
    below = v.below;
    narrow = v.narrow;
    cleared = v.cleared;
    callbacks = v.callbacks;
  }

  -- A callback that has been set is called.
  pub call_set :
      (callback : ℕ) (c : Option ℕ) (e : ℕ → Event) (s : Server w.FdSet)
      → c ≡ some callback
      → call w c e s ≡ go (event w (e callback) s)
  call_set callback c e s set = ap (λ c. call w c e s) set

  -- The state in which `fd` is watched as well.
  abbrev pub watching : ℕ → Server w.FdSet → Server w.FdSet
  watching fd s = record s {
    masterfds = w.set fd s.masterfds;
    maxfd = if ltb s.maxfd fd then fd % 2 ^ 16 else s.maxfd;
  }

  pub watching-Watches :
      (fd : ℕ) (s : Server w.FdSet)
      → fd < 65536
      → Watches s
      → Watches (watching fd s) × (s.maxfd ≤ (watching fd s).maxfd)
  watching-Watches fd s small v =
      let top = if ltb s.maxfd fd then fd % 2 ^ 16 else s.maxfd in
      let grown : (s.maxfd ≤ top) × (fd ≤ top) × (top ≤ 65535) =
        let old = v.narrow in ground arith in
      let within : (a : ℕ) → w.is_set a (w.set fd s.masterfds) ≡ true → a ≤ top = λ a h.
        elim (w.set_only a fd s.masterfds h) [
          | inl e ↦ let new = grown.1 in omega arith
          | inr old ↦ let first = v.below a old in let more = grown.0 in omega arith
        ] in
      (
        record { below = within; narrow = grown.2; cleared = v.cleared; callbacks = v.callbacks },
        grown.0,
      )
