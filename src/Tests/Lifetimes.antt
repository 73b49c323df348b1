-- ===== src/Tests/Lifetimes.antt =====
-- A server that is stopped and started again, and a client that leaves and connects again.
use network_study.Prelude.{◌≡◌, refl, Bool, true, false, List, [], ◌∷◌, ◌++◌, none, some}
use network_study.Connection.{client, Connection, post_close, new_connection}
use network_study.Context.{
  IoContext, Hosted, new_hosted, returns, terminates, joinable, runs, handle_all,
}
use network_study.Server.{Server}
use network_study.Server.Lifetime.{
  start_host, stop_host, starts_once, starts, stops, handler, host_calls, methods_only, updates,
  asking, HostCall,
}
use network_study.Client.{Client}
use network_study.Client.Lifetime.{connect_host, disconnect_host, connects_once}
use network_study.SimpleServer.{custom_server, CustomMsgTypes, server_accept}

-- A context that knows whether it has been stopped.
abbrev flag : IoContext
flag = record {
  Context = Bool;
  fresh = false;
  stop = λ c. true;
  stopped = λ c. c;
  stopped-fresh = refl;
  stopped-stop = λ c. refl;
}

abbrev new_server : Server CustomMsgTypes
new_server = record {
  messages_in = [];
  connections = [];
  heap = λ q. new_connection client q false [] server_accept;
  next_place = 0;
  id_counter = 10000;
  accepting = 0;
}

-- It has run.
abbrev used_server : Hosted flag (Server CustomMsgTypes)
used_server = record {
  object = record new_server { accepting = 1 };
  context = false;
  thread = joinable;
}

-- After the second start it is updated, stopped and started once more; a handler could run before and
-- after.
abbrev later_calls : List (HostCall flag CustomMsgTypes)
later_calls =
    handler (λ s. none)
    ∷ updates custom_server 1
    ∷ stops
    ∷ starts false false
    ∷ handler (λ s. some s)
    ∷ []

starts_once_example :
    let again = stop_host flag CustomMsgTypes used_server in
    (t : Hosted flag (Server CustomMsgTypes)) × (start_host flag CustomMsgTypes false false
        (new_hosted flag new_server)
      ≡ returns (true, t))
    × (t.object ≡ asking flag CustomMsgTypes new_server)
    × (runs flag t ≡ true)
    × (start_host flag CustomMsgTypes false false t ≡ terminates)
    × (u : Hosted flag (Server CustomMsgTypes)) × (start_host flag CustomMsgTypes false false again
        ≡ returns (true, u))
    × (u.object ≡ asking flag CustomMsgTypes used_server.object)
    × (host_calls flag CustomMsgTypes later_calls u
        ≡ host_calls flag CustomMsgTypes (methods_only flag CustomMsgTypes later_calls) u)
starts_once_example = starts_once flag CustomMsgTypes new_server later_calls used_server

abbrev linked_up : Connection CustomMsgTypes
unfolding new_connection
linked_up = new_connection client 0 true [] server_accept

abbrev used_client : Hosted flag (Client CustomMsgTypes)
used_client = record {
  object = record { connection = some linked_up; recv_deq = [] };
  context = false;
  thread = joinable;
}

abbrev no_client : Client CustomMsgTypes
no_client = record { connection = none; recv_deq = [] }

connects_once_example :
    (t : Hosted flag (Client CustomMsgTypes)) × (connect_host flag CustomMsgTypes server_accept true
        true false
        (new_hosted flag no_client)
      ≡ returns (true, t))
    × (runs flag t ≡ true)
    × (connect_host flag CustomMsgTypes server_accept true true false t ≡ terminates)
    × (left : Connection CustomMsgTypes) × (idle : Hosted flag (Client CustomMsgTypes))
    × (disconnect_host flag CustomMsgTypes [] used_client ≡ returns (some left, idle))
    × (left.is_open ≡ true)
    × (left.posts ≡ linked_up.posts ++ (post_close ∷ []))
    × (u : Hosted flag (Client CustomMsgTypes)) × (y : Connection CustomMsgTypes) × (connect_host
          flag CustomMsgTypes server_accept true true false idle
        ≡ returns (true, u))
    × (handle_all flag ((λ c. none) ∷ []) u ≡ returns u)
    × (u.object.connection ≡ some y)
    × (y.connecting ≡ 1)
    × (y.reads ≡ [])
unfolding new_connection
connects_once_example =
    connects_once flag CustomMsgTypes server_accept true true no_client linked_up [] used_client
      ((λ c. none) ∷ []) refl
