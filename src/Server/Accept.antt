-- ===== src/Server/Accept.antt =====
-- What the handler of `WaitForClientConnection` of net_server.h guarantees.
use network_study.Prelude.{ℕ, ◌+◌, ◌^◌, ◌<◌, ◌≡◌, refl, true, false, List, [], ◌∷◌, ◌++◌, some}
use network_study.Connection.{reading_header}
use network_study.Server.{
  Server, Callbacks, make_connection, approve, on_accept, wait_for_client_connection,
}
use network_study.Server.Clients.{Keeps, Inv, approved_self, approve-Inv, turned_away-Inv}

module _ {ℓ} {T : Type ℓ} where
  -- An accepted client that `OnClientConnect` lets in joins the end of the list, under the value of
  -- the counter as its id, and waits for its first header; all ids in the list stay different, and
  -- the server waits for the next client. The counter must not be at the end of its 32 bits.
  pub accept_approved :
      (cb : Callbacks T) (no_id : T) (s t : Server T) (ps : List ℕ)
      → Inv s ps
      → s.id_counter + 1 < 2 ^ 32
      → cb.on_client_connect (some s.next_place) (make_connection no_id s) ≡ some (true, t)
      → Keeps (make_connection no_id s) t
      → (s' : Server T) × (on_accept cb no_id false s ≡ some s')
        × Inv s' (ps ++ (s.next_place ∷ []))
        × ((s'.heap s.next_place).id ≡ s.id_counter)
        × ((s'.heap s.next_place).reads ≡ reading_header ∷ [])
        × (s'.accepting ≡ t.accepting + 1)
  unfolding on_accept
  accept_approved cb no_id s t ps v lt e k =
      let (uid, waits) = approved_self no_id s t k in
      let w = approve-Inv no_id s t k ps v lt in
      (
        wait_for_client_connection (approve s.next_place t),
        rw e,
        record { listed = w.listed; made = w.made; below = w.below; distinct = w.distinct },
        uid,
        waits,
        refl,
      )

  -- A client that `OnClientConnect` turns away, and an error of the acceptor, leave the list, the
  -- counter and all ids as they were, and the server waits for the next client.
  accept_refused :
      (cb : Callbacks T) (no_id : T) (s t : Server T) (ps : List ℕ)
      → Inv s ps
      → cb.on_client_connect (some s.next_place) (make_connection no_id s) ≡ some (false, t)
      → Keeps (make_connection no_id s) t
      → ((s' : Server T) × (on_accept cb no_id false s ≡ some s')
          × Inv s' ps
          × (s'.id_counter ≡ s.id_counter)
          × (s'.accepting ≡ t.accepting + 1))
        × (on_accept cb no_id true s ≡ some (record s { accepting = s.accepting + 1 }))
  unfolding on_accept wait_for_client_connection
  accept_refused cb no_id s t ps v e k = (
    (wait_for_client_connection t, rw e, turned_away-Inv no_id s t k ps v, k.same_counter, refl),
    refl,
  )
