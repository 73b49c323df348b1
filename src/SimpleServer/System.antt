-- ===== src/SimpleServer/System.antt =====
-- The program of SimpleServer.cpp as a whole: the loop of main, which calls `Update`, and between its turns
-- the handlers that the thread of asio runs. A connection is destroyed when nothing owns it: neither an entry
-- of the list nor the sender of a message that waits. Its handlers do not own it.
use network_study.Prelude.{
  ℕ, zero, suc, Bool, List, [], ◌∷◌, Option, none, some, ◌>>=◌, true, false, not, ltb,
  if◌then◌else◌,
}
use network_study.Message.{Message}
use network_study.TsQueue.{empty}
use network_study.Connection.{Codec, OwnedMessage, Connection}
use network_study.Connection.Handlers.{run_post, run_write, run_read}
use network_study.Server.{Server, ptr_eq, update, new_server, start, on_accept, update_loop}
use network_study.SimpleServer.{CustomMsgTypes, custom_server}

-- What happens next: one turn of the loop of `Update`, which `wait` holds up while the queue is empty; an
-- accepted client, or an error of the acceptor; and at the connection at a place a posted handler, a write
-- or a read that completes or fails, the latter with what then is in the header or the body.
pub data Move : Type 0 where
  turn : Move
  accepted : (error : Bool) → Move
  posted : (p : ℕ) → Move
  wrote : (p : ℕ) (error : Bool) → Move
  was_read : (p : ℕ) (error : Bool) (got : Message CustomMsgTypes) → Move

-- Whether a connection is there still.
abbrev pub is_listed : ℕ → List (Option ℕ) → Bool
is_listed p [] = false
is_listed p (c ∷ cs) = let rest = is_listed p cs in if ptr_eq (some p) c then true else rest

abbrev pub is_sender : ℕ → List (OwnedMessage CustomMsgTypes) → Bool
is_sender p [] = false
is_sender p (m ∷ ms) = let rest = is_sender p ms in if ptr_eq (some p) m.remote then true else rest

abbrev pub is_owned : ℕ → Server CustomMsgTypes → Bool
is_owned p s = if is_listed p s.connections then true else is_sender p s.messages_in

-- The connection that a move is at, and whether it has a handler to run there.
abbrev pub place_of : Move → Option ℕ
place_of (posted p) = some p
place_of (wrote p error) = some p
place_of (was_read p error got) = some p
place_of _ = none

abbrev pub is_pending : Move → Connection CustomMsgTypes → Bool
is_pending (posted p) c = not (empty c.posts)
is_pending (wrote p error) c = not (empty c.writes)
is_pending (was_read p error got) c = not (empty c.reads)
is_pending _ c = false

-- A handler of a connection that has been made. It works on the incoming queue of the server. If the
-- connection has been destroyed, a handler that runs all the same uses what is no longer there.
unfoldable pub at_connection :
    ℕ
    → Bool
    → (Connection CustomMsgTypes → Option (Connection CustomMsgTypes))
    → Server CustomMsgTypes
    → Option (Server CustomMsgTypes)
at_connection p pending f s =
    if ltb p s.next_place
    then (if is_owned p s
        then (f (record (s.heap p) { recv_deq = s.messages_in }) >>= λ c.
            some (record s { heap = update s.heap p c; messages_in = c.recv_deq }))
        else (if pending then none else some s))
    else some s

unfoldable pub accept_one :
    CustomMsgTypes → Bool → ℕ → Server CustomMsgTypes → Option (Server CustomMsgTypes)
unfolding on_accept
accept_one no_id error zero s = some s
accept_one no_id error (suc n) s = on_accept custom_server no_id error (record s { accepting = n })

module _ (codec : Codec CustomMsgTypes) (no_id : CustomMsgTypes) where
  unfoldable pub one_move : Move → Server CustomMsgTypes → Option (Server CustomMsgTypes)
  unfolding update_loop accept_one at_connection run_post run_write run_read
  one_move turn s = update_loop custom_server 1 s
  one_move (accepted error) s = accept_one no_id error s.accepting s
  one_move (posted p) s = at_connection p (is_pending (posted p) (s.heap p)) (run_post codec) s
  one_move (wrote p error) s =
      at_connection p (is_pending (wrote p error) (s.heap p)) (run_write codec error) s
  one_move (was_read p error got) s =
      at_connection p (is_pending (was_read p error got) (s.heap p)) (run_read codec error got) s

  unfoldable pub moves : List Move → Server CustomMsgTypes → Option (Server CustomMsgTypes)
  unfolding one_move
  moves [] s = some s
  moves (m ∷ ms) s = one_move m s >>= moves ms

  -- main: the result of `Start` is not looked at. `objects` is the memory for connections.
  unfoldable pub server_main :
      Bool → Bool → (ℕ → Connection CustomMsgTypes) → List Move → Option (Server CustomMsgTypes)
  unfolding start new_server moves
  server_main throws thread_fails objects ms =
      moves ms (start throws thread_fails (new_server objects)).1
