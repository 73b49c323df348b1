-- ===== src/NewServer.antt =====
-- NewServer.cpp and NewServer.h: a server over `select` that calls back for what happens. The calls that
-- it makes outside are listed in the order in which they are made.
pub mod Handlers
pub mod Loop
pub mod Runs
pub mod Watching
use network_study.Prelude.{
  ℕ, ◌+◌, ◌-◌, ◌%◌, ◌^◌, ◌==◌, Bool, true, false, List, [], ◌∷◌, ◌++◌, Option, none, some, ◌>>=◌,
  if◌then◌else◌, ltb, leb, length, take, replicate, codes,
}
use network_study.Prelude.Int.{ℤ, pos, negsuc, to_size}
use network_study.Bytes.{read, write, has_end}
use network_study.Select.{
  Received, ended, failed, bytes, Round, greeting, FdSets, Flow, go, ret, fault, running, for_fds,
  then_flow,
}

-- What the server does outside: the calls of a callback, with a descriptor of 16 bits, `listen` with the
-- length of its queue, the first message to a client, and `closesocket`.
pub data Event : Type 0 where
  connected : (callback fd : ℕ) → Event
  disconnected : (callback fd : ℕ) → Event
  input : (callback fd : ℕ) (buffer : List ℕ) → Event
  listened : (fd backlog : ℕ) → Event
  greeted : (fd : ℕ) (bytes : List ℕ) → Event
  closed : (fd : ℕ) → Event

-- A callback is a place in the program's code, or nothing while it has not been set.
pub record Server (FdSet : Type 0) : Type 0 where
  pub masterfds : FdSet
  pub tempfds : FdSet
  pub maxfd : ℕ
  pub master_socket : ℤ
  pub temp_socket : ℤ
  pub buffer : List ℕ
  pub new_connection_callback : Option ℕ
  pub receive_callback : Option ℕ
  pub disconnect_callback : Option ℕ
  pub events : List Event  -- what has been done outside so far

-- BUFFER_SIZE
abbrev pub buffer_size : ℕ
buffer_size = 1024

-- BACKLOG
abbrev pub backlog : ℕ
backlog = 5

-- The buffer when it has been cleared.
unfoldable pub blank : List ℕ
blank = replicate buffer_size 0

-- USORT is uint16_t.
abbrev pub usort : ℤ → ℕ
usort z = to_size z % 2 ^ 16

-- `masterSocket == i`
unfoldable pub is_master : ℤ → ℕ → Bool
is_master (pos m) fd = m == fd
is_master (negsuc n) fd = false

module _ (w : FdSets) where
  abbrev pub event : Event → Server w.FdSet → Server w.FdSet
  event e s = record s { events = s.events ++ (e ∷ []) }

  -- To call a callback that has not been set is undefined.
  abbrev pub call : Option ℕ → (ℕ → Event) → Server w.FdSet → Flow (Server w.FdSet)
  call none e s = fault
  call (some callback) e s = go (event (e callback) s)

  -- The setters of the callbacks.
  unfoldable pub on_input : ℕ → Server w.FdSet → Server w.FdSet
  on_input rc s = record s { receive_callback = some rc }

  unfoldable pub on_connect : ℕ → Server w.FdSet → Server w.FdSet
  on_connect ncc s = record s { new_connection_callback = some ncc }

  unfoldable pub on_disconnect : ℕ → Server w.FdSet → Server w.FdSet
  on_disconnect odc s = record s { disconnect_callback = some odc }

  -- `Setup`, with the result of `socket`, which may be an error. It leaves maxfd and the callbacks as they
  -- were in memory.
  unfoldable pub setup : ℤ → Server w.FdSet → Server w.FdSet
  setup sock memory = record memory {
    masterfds = w.empty;
    tempfds = w.empty;
    master_socket = sock;
    buffer = blank;
  }

  unfoldable pub shutdown : Server w.FdSet → Server w.FdSet
  shutdown s = event (closed (to_size s.master_socket)) s

  -- The copy constructor copies nothing: the new server is what was in memory.
  unfoldable copy_server : Server w.FdSet → Server w.FdSet → Server w.FdSet
  copy_server original memory = memory

  -- The destructor.
  unfoldable destroy : Server w.FdSet → Server w.FdSet
  unfolding shutdown
  destroy s = shutdown s

  -- `InitSocket`, with whether `setsockopt` fails.
  unfoldable pub init_socket : Bool → Server w.FdSet → Server w.FdSet
  unfolding shutdown
  init_socket option_fails s = if option_fails then shutdown s else s

  -- A failure of `bind` is only printed.
  unfoldable pub bind_socket : Server w.FdSet → Server w.FdSet
  bind_socket s = record s {
    masterfds = w.set (to_size s.master_socket) s.masterfds;
    maxfd = usort s.master_socket;
  }

  -- A failure of `listen` is only printed.
  unfoldable pub start_listen : Server w.FdSet → Server w.FdSet
  start_listen s = event (listened (to_size s.master_socket) backlog) s

  unfoldable pub init : Bool → Server w.FdSet → Server w.FdSet
  unfolding init_socket bind_socket start_listen
  init option_fails s = start_listen (bind_socket (init_socket option_fails s))

  -- The new client is watched, and greeted if its name is found.
  unfoldable pub watch_client : ℕ → Bool → Server w.FdSet → Server w.FdSet
  watch_client fd name_found s =
      let t = record s {
        masterfds = w.set fd s.masterfds;
        maxfd = if ltb s.maxfd fd then fd % 2 ^ 16 else s.maxfd;
      } in
      if name_found then event (greeted fd greeting) t else t

  -- The callback is called whether or not `accept` has succeeded.
  unfoldable pub handle_new_connection : ℤ → Bool → Server w.FdSet → Flow (Server w.FdSet)
  unfolding watch_client
  handle_new_connection accepted name_found s =
      let t = record s { temp_socket = accepted } in
      let u : Server w.FdSet = elim accepted [
        | pos fd ↦ watch_client fd name_found t
        | negsuc n ↦ t
      ] in
      call u.new_connection_callback (λ callback. connected callback (usort accepted)) u

  unfoldable pub close_client : ℕ → Server w.FdSet → Server w.FdSet
  close_client fd s = event (closed fd) (record s { masterfds = w.clr fd s.masterfds })

  unfoldable pub recv_input_from_existing : Received → ℕ → Server w.FdSet → Flow (Server w.FdSet)
  unfolding close_client write
  recv_input_from_existing ended fd s =
      then_flow (call s.disconnect_callback (λ callback. disconnected callback (fd % 2 ^ 16)) s)
        (λ t. go (close_client fd t))
  recv_input_from_existing failed fd s = go (close_client fd s)
  recv_input_from_existing (bytes x xs) fd s = elim (write s.buffer 0 (x ∷ xs)) [
    | none ↦ fault
    | some b ↦
        if has_end b
        then then_flow
            (call s.receive_callback (λ callback. input callback (fd % 2 ^ 16) b)
              (record s { buffer = b }))
            (λ t. go (record t { buffer = blank }))
        else fault
  ]

  unfoldable pub handle : Round w.FdSet → ℕ → Server w.FdSet → Flow (Server w.FdSet)
  unfolding is_master handle_new_connection recv_input_from_existing
  handle r fd s =
      if is_master s.master_socket fd
      then handle_new_connection r.accepted r.name_found s
      else recv_input_from_existing (r.received fd) fd s

  -- `Loop`, with a bound on the rounds of its `for`. When `select` fails it goes on all the same.
  unfoldable pub loop : ℕ → Round w.FdSet → Server w.FdSet → Flow (Server w.FdSet)
  unfolding for_fds handle shutdown
  loop fuel r s =
      let t = record s { tempfds = r.reported } in
      for_fds (λ u. u.maxfd) (λ fd. w.is_set fd r.reported) (handle r) fuel 0
        (if r.select_fails then shutdown t else t)

-- The bytes that `SendMessage` hands to `send`: as many as a pointer has, whatever the message.
unfoldable send_message : List ℕ → Option (List ℕ)
unfolding read
send_message message = read message 0 8
