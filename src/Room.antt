-- ===== src/Room.antt =====
-- The chat as a whole: the server of SimpleServer.cpp, and clients of SimpleClient.cpp whose connections
-- it lists. One request is served before the next, and its messages go over the wire.
pub mod Hearing
pub mod Chatting
pub mod Others
use network_study.Prelude.{
  ℕ, suc, ◌^◌, ◌<◌, ◌≤◌, ◌≡◌, Bool, true, false, List, [], ◌∷◌, ◌++◌, map, Option, none, some,
  ◌>>=◌, ◌==◌, if◌then◌else◌, length,
}
use network_study.Connection.{Codec, Connection}
use network_study.Server.{Server, update}
use network_study.Server.Listed.{times}
use network_study.SimpleServer.{CustomMsgTypes}
use network_study.Client.{Client, Line, pinged, hello}
use network_study.Client.Wire.{at_rest, end_at, round_trip}
use network_study.Client.Greeting.{greet, hears}
use network_study.Client.Pinging.{Clocks, between}
use network_study.Prelude.Int.{pos}

pub record Room : Type 0 where
  pub clients : ℕ → Connection CustomMsgTypes  -- the client's end of each connection
  pub server : Server CustomMsgTypes

-- Key 1 or key 2 goes down at the client of connection `p`, with the clocks when it is pressed and when a
-- client reads a message.
pub data Request : Type 0 where
  pings : (p : ℕ) (now read_at : List ℕ) → Request
  greets : (p : ℕ) (clocks : ℕ → List ℕ) → Request

abbrev pub others : ℕ → List ℕ → List ℕ
others p [] = []
others p (q ∷ qs) = let rest = others p qs in if p == q then rest else q ∷ rest

-- What is printed, and by which client.
abbrev pub Said : Type 0
Said = List (ℕ × Line)

abbrev pub tagged : ℕ → List Line → Said
tagged p [] = []
tagged p (line ∷ lines) = (p, line) ∷ tagged p lines

module _ (codec : Codec CustomMsgTypes) where
  abbrev pub hear : (ℕ → List ℕ) → ℕ → Room → Option (Said × Room)
  hear clocks q r = do
    (seen, peer) ← hears codec q (clocks q) (r.clients q) r.server
    y ← seen.2.connection
    some (
      tagged q seen.1,
      record {
        clients = update r.clients q y;
        server = record r.server { heap = update r.server.heap q peer };
      },
    )

  unfoldable pub hear_all : (ℕ → List ℕ) → List ℕ → Room → Option (Said × Room)
  hear_all clocks [] r = some ([], r)
  hear_all clocks (q ∷ qs) r = do
    (lines, heard) ← hear clocks q r
    (more, last) ← hear_all clocks qs heard
    some (lines ++ more, last)

  -- A request, in a room whose server lists `ps`.
  abbrev pub answer : List ℕ → Request → Room → Option (Said × Room)
  answer ps (pings p now read_at) r = do
    (seen, server) ← round_trip codec p now read_at (r.clients p) r.server
    y ← seen.2.connection
    some (tagged p seen.1, record { clients = update r.clients p y; server = server })
  answer ps (greets p clocks) r = do
    (x, server) ← greet codec p (r.clients p) r.server
    hear_all clocks (others p ps) (record { clients = update r.clients p x; server = server })

  unfoldable pub chat : List ℕ → List Request → Room → Option (Said × Room)
  unfolding hear_all
  chat ps [] r = some ([], r)
  chat ps (q ∷ qs) r = do
    (lines, next) ← answer ps q r
    (more, last) ← chat ps qs next
    some (lines ++ more, last)

-- What should be printed, where `ids` are the ids of the connections.
abbrev pub told : ℕ → List ℕ → Said
told id [] = []
told id (q ∷ qs) = (q, hello id) ∷ told id qs

abbrev pub expected : (ℕ → ℕ) → List ℕ → Request → Said
expected ids ps (pings p now read_at) = (p, pinged (pos (between now read_at))) ∷ []
expected ids ps (greets p clocks) = told (ids p) (others p ps)

abbrev pub all_expected : (ℕ → ℕ) → List ℕ → List Request → Said
all_expected ids ps [] = []
all_expected ids ps (q ∷ qs) = expected ids ps q ++ all_expected ids ps qs

-- A request of a client whose connection is listed. Its clock does not go back.
abbrev pub Asks : List ℕ → Request → Type 0
Asks ps (pings p now read_at) = (times p ps ≡ 1) × Clocks now read_at
Asks ps (greets p clocks) = times p ps ≡ 1

-- The end of a client that waits for nothing.
abbrev pub rested : Connection CustomMsgTypes → Connection CustomMsgTypes
rested y = record (at_rest y) { recv_deq = [] }

-- Both ends of a connection are open and at rest.
abbrev pub Rests : (ℕ → ℕ) → ℕ → Room → Type 0
Rests ids q r =
    (y c : Connection CustomMsgTypes) × (r.clients q ≡ rested y)
    × (r.server.heap q ≡ end_at q c)
    × (c.id ≡ ids q)

-- All connections of the list are at rest, and no message waits at the server.
pub record Quiet (ids : ℕ → ℕ) (ps : List ℕ) (r : Room) : Type 0 where
  pub ends : (q : ℕ) → times q ps ≡ 1 → Rests ids q r
  pub listed : r.server.connections ≡ map some ps
  pub none_waits : r.server.messages_in ≡ []
