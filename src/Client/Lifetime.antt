-- ===== src/Client/Lifetime.antt =====
-- `Connect` and `Disconnect` of net_client.h, with the context and its thread.
use network_study.Prelude.{
  ◌≡◌, refl, ap, Bool, true, false, not, List, [], ◌∷◌, ◌++◌, Option, none, some, if◌then◌else◌,
}
use network_study.Connection.{
  client, OwnedMessage, Connection, post_close, new_connection, connect_to_server, disconnect,
  is_connected,
}
use network_study.Client.{Client, incoming, connect, is_connected_to_server}
use network_study.Context.{
  IoContext, joinable, Ending, returns, terminates, undefined, Hosted, new_hosted, launch, halt,
  runs, handle_all,
}
use network_study.Context.Halting.{handle_all-stopped}

module _ {ℓ} (w : IoContext) (T : Type ℓ) where
  abbrev pub Host : Type ℓ
  Host = Hosted w (Client T)

  -- `Connect`, with whether the address resolves, whether the socket opens at once, and whether the thread
  -- cannot be made.
  unfoldable pub connect_host : T → Bool → Bool → Bool → Host → Ending (Bool × Host)
  unfolding connect launch
  connect_host no_id false opened thread_fails h = returns (false, h)
  connect_host no_id true opened true h =
      returns (false, record h { object = (connect no_id true opened h.object).1 })
  connect_host no_id true opened false h = launch w (connect no_id true opened h.object).1 h

  -- The first part of `Disconnect`.
  unfoldable pub ask_disconnect : Client T → Client T
  unfolding is_connected_to_server disconnect
  ask_disconnect c =
      if is_connected_to_server c
      then elim c.connection [ none ↦ c | some x ↦ record c { connection = some (disconnect x) } ]
      else c

  -- `Disconnect`, with the handlers that the thread runs before the context is stopped, and the
  -- connection that `release` gives up.
  unfoldable pub disconnect_host :
      List (Client T → Option (Client T)) → Host → Ending (Option (Connection T) × Host)
  unfolding ask_disconnect halt handle_all
  disconnect_host between h =
      elim (handle_all w between (record h { object = ask_disconnect h.object })) [
        | returns t ↦ returns (
          t.object.connection,
          record (halt w t) { object = record { connection = none; recv_deq = incoming t.object } },
        )
        | terminates ↦ terminates
        | undefined ↦ undefined
      ]

  ask_disconnect-open :
      (x : Connection T) (waiting : List (OwnedMessage T))
      → x.is_open ≡ true
      → ask_disconnect (record { connection = some x; recv_deq = waiting }) ≡ record {
        connection = some (record x { posts = x.posts ++ (post_close ∷ []) });
        recv_deq = waiting;
      }
  unfolding ask_disconnect is_connected_to_server is_connected disconnect
  ask_disconnect-open x waiting up =
      let before : Client T = record { connection = some x; recv_deq = waiting } in
      let asked : Connection T = record x { posts = x.posts ++ (post_close ∷ []) } in
      ap (λ b. if b then record before { connection = some (if b then asked else x) } else before)
        up

  -- A client connects once. `Connect` returns true, and the thread runs handlers; to connect again before
  -- `Disconnect` ends the program. `Disconnect` posts the close and stops the context: if the thread does
  -- not run the close in between, the connection that is given up keeps its socket open for ever, the
  -- close being still posted. `Connect` then returns true again; but the context was not restarted, no
  -- handler runs any more, and the new connection is never made: it waits for its `async_connect`, and
  -- reads nothing.
  pub connects_once :
      (no_id : T) (opened reopened : Bool) (c : Client T) (x : Connection T)
      (waiting : List (OwnedMessage T)) (h : Host) (fs : List (Client T → Option (Client T)))
      → x.is_open ≡ true
      → let used = record h { object = record { connection = some x; recv_deq = waiting } } in
        (t : Host) × (connect_host no_id true opened false (new_hosted w c) ≡ returns (true, t))
        × (runs w t ≡ true)
        × (connect_host no_id true reopened false t ≡ terminates)
        × (left : Connection T) × (idle : Host) × (disconnect_host [] used
            ≡ returns (some left, idle))
        × (left.is_open ≡ true)
        × (left.posts ≡ x.posts ++ (post_close ∷ []))
        × (u : Host) × (y : Connection T) × (connect_host no_id true reopened false idle
            ≡ returns (true, u))
        × (handle_all w fs u ≡ returns u)
        × (u.object.connection ≡ some y)
        × (y.connecting ≡ 1)
        × (y.reads ≡ [])
  unfolding connect_host connect launch disconnect_host ask_disconnect halt is_connected_to_server
      is_connected disconnect new_connection connect_to_server handle_all
  connects_once no_id opened reopened c x waiting h fs up =
      let made = record (new_connection client 0 false x.recv_deq no_id) {
        connecting = 1;
        is_open = reopened;
      } in
      let asked : Connection T = record x { posts = x.posts ++ (post_close ∷ []) } in
      let after : Host = record h {
        object = record { connection = some asked; recv_deq = waiting };
      } in
      let idle : Host = record (halt w after) {
        object = record { connection = none; recv_deq = x.recv_deq };
      } in
      let u : Host = record idle {
        object = record { connection = some made; recv_deq = x.recv_deq };
        thread = joinable;
      } in
      (
        _,
        refl,
        ap not w.stopped-fresh,
        refl,
        asked,
        idle,
        ap
            (λ (c : Client T). returns (
              c.connection,
              record (halt w h) { object = record { connection = none; recv_deq = incoming c } },
            ))
            (ask_disconnect-open x waiting up),
        up,
        refl,
        u,
        made,
        refl,
        handle_all-stopped w fs u (w.stopped-stop h.context),
        refl,
        refl,
        refl,
      )
