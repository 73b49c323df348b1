-- ===== src/Tests/Selects.antt =====
-- The programs over `select`, with a set of sockets that has room for all.
use network_study.Prelude.{
  ℕ, ◌≡◌, ◌≢◌, ◌⊎◌, inl, inr, none, refl, ap, ◌==◌, Bool, true, false, [], ◌∷◌, if◌then◌else◌,
  arith, suc, Bool-cases,
}
use network_study.Prelude.Int.{pos, negsuc}
use network_study.Select.{Round, ended, bytes, FdSets, go, ret, ready_from, serve_each}
use network_study.NewServer.{
  setup, init_socket, bind_socket, start_listen, init, handle_new_connection, loop, on_connect,
  on_input, on_disconnect,
}
use network_study.NewServer
use network_study.NewServer.Watching.{Watches, prepared}
use network_study.NewServer.Runs.{Runs, starts, run_goes_on}
use network_study.NewServer.Loop.{started, loops, loop_unreachable}
use network_study.ServerMain
use network_study.ServerMain.{serve, closed, error}
use network_study.ServerMain.Staying
use network_study.ServerMain.Staying.{next, no_more, stays_up}
use network_study.ServerMain.Serving
use network_study.ServerMain.Ending.{one_leaves}
use network_study.SimpleSocket.{zeros}

abbrev bits : FdSets
bits = record {
  FdSet = ℕ → Bool;
  empty = λ a. false;
  set = λ b s a. if b == a then true else s a;
  clr = λ b s a. if b == a then false else s a;
  is_set = λ a s. s a;
  has_room = λ s. true;
  is_set-empty = λ a. refl;
  set_has = λ a s h. ground arith;
  set_keeps = λ a b s h. ground arith;
  set_only = λ a b s h. elim (Bool-cases (b == a)) [
    | inl same ↦ inl (ground arith)
    | inr other ↦ inr (ground arith)
  ];
  is_set-clr = λ a b s. refl;
}

abbrev memory : NewServer.Server (ℕ → Bool)
memory = record {
  masterfds = bits.empty;
  tempfds = bits.empty;
  maxfd = 0;
  master_socket = pos 0;
  temp_socket = pos 0;
  buffer = [];
  new_connection_callback = none;
  receive_callback = none;
  disconnect_callback = none;
  events = [];
}

-- The server that listens on 3 and has no client.
abbrev listening : NewServer.Server (ℕ → Bool)
listening = init bits false (prepared bits 100 200 300 (pos 3) memory)

-- A client comes and gets 4.
abbrev comes : Round (ℕ → Bool)
comes = record {
  select_fails = false;
  reported = λ a. 3 == a;
  accepted = pos 4;
  name_found = true;
  received = λ fd. ended;
}

only_master : (a : ℕ) → (3 == a) ≡ true → bits.is_set a listening.masterfds ≡ true
unfolding init setup init_socket bind_socket start_listen on_connect on_input on_disconnect
only_master a h = ap (λ b. if b then true else false) h

run_goes_on_example :
    Watches bits listening
    × (t : NewServer.Server (ℕ → Bool)) × (loop bits 65537 comes listening ≡ go t)
    × (serve_each
          (NewServer.handle bits comes)
          (ready_from (λ a. 3 == a) (suc listening.maxfd) 0)
          (started bits comes listening)
        ≡ go t)
    × Runs bits t
run_goes_on_example =
    run_goes_on bits comes listening (starts false 100 200 300 3 memory (omega arith))
      (record { reports = only_master; narrow = omega arith; short = λ fd. tt })

-- The master socket and no other.
three_only : (a : ℕ) → a ≢ 3 → (3 == a) ≡ false
three_only a h = ground arith

-- The new client gets 65537.
loop_unreachable_example :
    (t : NewServer.Server (ℕ → Bool)) × (handle_new_connection bits (pos 65537) true listening
      ≡ go t)
    × (u : NewServer.Server (ℕ → Bool)) × (loops bits 65537 (comes ∷ comes ∷ []) t ≡ go u)
    × (u.masterfds ≡ t.masterfds)
    × (u.temp_socket ≡ t.temp_socket)
unfolding init setup init_socket bind_socket start_listen on_connect on_input on_disconnect
loop_unreachable_example =
    loop_unreachable bits 65537 100 65537 3 true (comes ∷ comes ∷ []) listening refl refl
      (omega arith) (omega arith) (three_only, (three_only, tt)) (omega arith)

-- A server that listens on 3 and watches 4 and 5.
abbrev watching : ServerMain.Server (ℕ → Bool)
watching = record {
  masterfds = bits.set 5 (bits.set 4 (bits.set 3 bits.empty));
  tempfds = bits.empty;
  maxfd = 5;
  master_socket = 3;
  buffer = zeros;
  events = [];
}

-- The client 4 leaves.
abbrev leaving : Round (ℕ → Bool)
leaving = record {
  select_fails = false;
  reported = λ a. 4 == a;
  accepted = negsuc 0;
  name_found = false;
  received = λ fd. ended;
}

one_leaves_example :
    (u : ServerMain.Server (ℕ → Bool)) × (serve bits 7 (leaving ∷ leaving ∷ []) watching ≡ ret u)
    × ((u.events ≡ closed 4 ∷ []) ⊎ (u.events ≡ error ∷ closed 4 ∷ []))
one_leaves_example =
    one_leaves bits 7 4 leaving (leaving ∷ []) watching (refl, λ a h. ground arith) refl
      (λ e. omega arith) (omega arith) (omega arith) tt (omega arith)

-- The calls of the start succeed, and the server listens on 3.
abbrev all_well : ServerMain.Startup
all_well = record {
  startup_fails = false;
  addresses_fail = false;
  sock = 3;
  bind_fails = false;
  ioctl_fails = false;
  listen_fails = false;
}

-- The client 4 comes.
abbrev arriving : Round (ℕ → Bool)
arriving = record {
  select_fails = false;
  reported = λ a. 3 == a;
  accepted = pos 4;
  name_found = true;
  received = λ fd. bytes 65 [];
}

stays_up_example :
    (u : ServerMain.Server (ℕ → Bool)) × (serve bits 2147483649
        (arriving ∷ [])
        (ServerMain.Staying.fresh bits 3)
      ≡ go u)
    × ServerMain.Serving.Tracks bits u
unfolding ServerMain.start
stays_up_example =
    stays_up bits 2147483649 all_well (arriving ∷ []) (ServerMain.Staying.fresh bits 3) refl
      (omega arith)
      (next
        (record {
          selects = refl;
          reports = λ a h. ap (λ b. if b then true else false) h;
          small = omega arith;
          talks = λ fd. omega arith;
        })
        (λ u e. no_more))
      (omega arith)
