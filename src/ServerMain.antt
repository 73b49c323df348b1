-- ===== src/ServerMain.antt =====
-- Server.cpp: a program that serves many clients with `select`, and ends when one of them leaves. The
-- calls that it makes outside are listed in the order in which they are made.
pub mod Ending
pub mod Serving
pub mod Staying
use network_study.Prelude.{
  ℕ, zero, suc, ◌+◌, ◌%◌, ◌^◌, ◌==◌, Bool, true, false, List, [], ◌∷◌, ◌++◌, Option, none, some,
  ◌>>=◌, ◌-◌, if◌then◌else◌, ltb, length, replicate, codes,
}
use network_study.Prelude.Int.{ℤ, pos, negsuc}
use network_study.Bytes.{read, write, has_end}
use network_study.Select.{
  Received, ended, failed, bytes, Round, greeting, FdSets, Flow, go, ret, fault, running, for_fds,
}
use network_study.SimpleSocket.{zeros, invalid_socket}

pub data Event : Type 0 where
  error : Event
  free_addresses : Event
  cleaned_up : Event
  exited : Event
  greeted : (fd : ℕ) (bytes : List ℕ) → Event
  printed : (buffer : List ℕ) → Event
  closed : (fd : ℕ) → Event

-- The two functions `shoutError`, which end the program.
abbrev pub shout_error : List Event
shout_error = error ∷ cleaned_up ∷ exited ∷ []

abbrev pub shout_error_and_close : ℕ → List Event
shout_error_and_close sock = error ∷ free_addresses ∷ closed sock ∷ cleaned_up ∷ exited ∷ []

-- ClientInfo, which main does not use so far. The sizes of the two texts are winsock's. An address is its
-- port and its bytes.
record ClientInfo : Type 0 where
  client_id : ℕ
  port : ℕ
  address : ℕ
  host : List ℕ
  service : List ℕ

-- `clientId = -1`, of an unsigned.
unfoldable new_client_info : ℕ → ℕ → ClientInfo
new_client_info max_host max_service = record {
  client_id = 2 ^ 32 - 1;
  port = 9000;
  address = 0;
  host = replicate max_host 0;
  service = replicate max_service 0;
}

unfoldable client_info_of : ℕ → ℕ → ℕ → ℕ → ℕ → List ℕ → List ℕ → Option ClientInfo
unfolding read
client_info_of max_host max_service id port address temp_host temp_service = do
  host ← read temp_host 0 max_host
  service ← read temp_service 0 max_service
  some (record { client_id = id; port = port; address = address; host = host; service = service })

pub record Server (FdSet : Type 0) : Type 0 where
  pub masterfds : FdSet
  pub tempfds : FdSet
  pub maxfd : ℕ
  pub master_socket : ℕ
  pub buffer : List ℕ
  pub events : List Event

-- What the calls before the loop return: whether they fail, and the socket.
pub record Startup : Type 0 where
  pub startup_fails : Bool
  pub addresses_fail : Bool
  pub sock : ℕ
  pub bind_fails : Bool
  pub ioctl_fails : Bool
  pub listen_fails : Bool

module _ (w : FdSets) where
  abbrev pub event : Event → Server w.FdSet → Server w.FdSet
  event e s = record s { events = s.events ++ (e ∷ []) }

  -- main up to the loop: the server, or what was done before the program ended.
  unfoldable pub start : Startup → Option (Server w.FdSet) × List Event
  start c =
      if c.startup_fails
      then (none, shout_error)
      else if c.addresses_fail
      then (none, shout_error)
      else if c.sock == invalid_socket
      then (none, shout_error)
      else if c.bind_fails
      then (none, shout_error_and_close c.sock)
      else if c.ioctl_fails
      then (none, shout_error_and_close c.sock)
      else if c.listen_fails
      then (none, shout_error_and_close c.sock)
      else (
        some (record {
          masterfds = w.set c.sock w.empty;
          tempfds = w.empty;
          maxfd = c.sock % 2 ^ 32;
          master_socket = c.sock;
          buffer = zeros;
          events = [];
        }),
        [],
      )

  unfoldable pub accept_client : ℤ → Bool → Server w.FdSet → Server w.FdSet
  accept_client (negsuc n) name_found s = event error s
  accept_client (pos fd) name_found s =
      let t = record s {
        masterfds = w.set fd s.masterfds;
        maxfd = if ltb s.maxfd fd then fd else s.maxfd;
      } in
      if name_found then event (greeted fd greeting) t else t

  -- A client that leaves, or an error, makes main return.
  unfoldable pub read_client : Received → ℕ → Server w.FdSet → Flow (Server w.FdSet)
  unfolding write
  read_client ended fd s = ret (event (closed fd) (record s { masterfds = w.clr fd s.masterfds }))
  read_client failed fd s =
      ret (event (closed fd) (event error (record s { masterfds = w.clr fd s.masterfds })))
  read_client (bytes x xs) fd s = elim (write s.buffer 0 (x ∷ xs)) [
    | none ↦ fault
    | some b ↦ if has_end b then go (event (printed b) (record s { buffer = zeros })) else fault
  ]

  unfoldable pub handle : Round w.FdSet → ℕ → Server w.FdSet → Flow (Server w.FdSet)
  unfolding accept_client read_client
  handle r fd s =
      if s.master_socket == fd
      then go (accept_client r.accepted r.name_found s)
      else read_client (r.received fd) fd s

  -- When `select` fails the master socket is closed, and the round goes on.
  abbrev pub started : Round w.FdSet → Server w.FdSet → Server w.FdSet
  started r s =
      let t = record s { tempfds = r.reported } in
      if r.select_fails then event (closed s.master_socket) (event error t) else t

  unfoldable pub one_round : ℕ → Round w.FdSet → Server w.FdSet → Flow (Server w.FdSet)
  unfolding for_fds handle
  one_round fuel r s =
      for_fds (λ u. u.maxfd) (λ fd. w.is_set fd r.reported) (handle r) fuel 0 (started r s)

  -- The loop of main over some rounds; `running` means that it goes on after them.
  unfoldable pub serve : ℕ → List (Round w.FdSet) → Server w.FdSet → Flow (Server w.FdSet)
  unfolding one_round
  serve fuel [] s = go s
  serve fuel (r ∷ rounds) s = elim (one_round fuel r s) [
    | go t ↦ serve fuel rounds t
    | ret t ↦ ret t
    | fault ↦ fault
    | running ↦ running
  ]
