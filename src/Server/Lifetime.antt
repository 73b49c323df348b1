-- ===== src/Server/Lifetime.antt =====
-- `Start` and `Stop` of net_server.h, with the context and its thread.
use network_study.Prelude.{
  none, some, ℕ, ◌+◌, ◌≡◌, ◌⊎◌, inl, inr, refl, sym, ap, ◌∙◌, Bool, true, false, not, List, [], ◌∷◌,
  Option,
}
use network_study.Message.{Message}
use network_study.Server.{
  Callbacks, update_loop, message_client, message_all_clients, Server, wait_for_client_connection,
}
use network_study.Context.{
  IoContext, Thread, unused, joinable, Ending, returns, terminates, undefined, Hosted, new_hosted,
  launch, halt, runs, handle,
}
use network_study.Context.Halting.{handle-stopped}

module _ {ℓ} (w : IoContext) (T : Type ℓ) where
  abbrev pub Host : Type ℓ
  Host = Hosted w (Server T)

  -- `Start`, with whether `async_accept` throws, and whether the thread cannot be made.
  unfoldable pub start_host : Bool → Bool → Host → Ending (Bool × Host)
  unfolding wait_for_client_connection launch
  start_host true thread_fails h = returns (false, h)
  start_host false true h =
      returns (false, record h { object = wait_for_client_connection h.object })
  start_host false false h = launch w (wait_for_client_connection h.object) h

  -- `Stop`, which the destructor calls.
  unfoldable pub stop_host : Host → Host
  unfolding halt
  stop_host h = halt w h

  -- What happens to a server: its methods are called, or a handler could be run. The callbacks are those of
  -- the subclass.
  pub data HostCall : Type ℓ where
    starts : (throws thread_fails : Bool) → HostCall
    stops : HostCall
    updates : (cb : Callbacks T) (max_messages : ℕ) → HostCall
    messages_client : (cb : Callbacks T) (client : Option ℕ) (msg : Message T) → HostCall
    messages_all : (cb : Callbacks T) (msg : Message T) (ignore : Option ℕ) → HostCall
    handler : (Server T → Option (Server T)) → HostCall

  -- A method that does not touch the context or the thread.
  unfoldable pub method : (Server T → Option (Server T)) → Host → Ending Host
  method f h = elim (f h.object) [
    | none ↦ undefined
    | some object ↦ returns (record h { object = object })
  ]

  abbrev pub host_call : HostCall → Host → Ending Host
  host_call (starts throws thread_fails) h = elim (start_host throws thread_fails h) [
    | returns r ↦ returns r.1
    | terminates ↦ terminates
    | undefined ↦ undefined
  ]
  host_call stops h = returns (stop_host h)
  host_call (updates cb max_messages) h = method (update_loop cb max_messages) h
  host_call (messages_client cb client msg) h =
      method (message_client cb.on_client_disconnect client msg) h
  host_call (messages_all cb msg ignore) h =
      method (message_all_clients cb.on_client_disconnect msg ignore) h
  host_call (handler f) h = handle w f h

  abbrev then_calls : (Host → Ending Host) → Ending Host → Ending Host
  then_calls calls o = elim o [
    | returns t ↦ calls t
    | terminates ↦ terminates
    | undefined ↦ undefined
  ]

  abbrev pub host_calls : List HostCall → Host → Ending Host
  host_calls [] h = returns h
  host_calls (c ∷ cs) h = then_calls (host_calls cs) (host_call c h)

  -- The calls without the handlers.
  abbrev pub methods_only : List HostCall → List HostCall
  methods_only [] = []
  methods_only (handler f ∷ cs) = methods_only cs
  methods_only (c ∷ cs) = c ∷ methods_only cs

  -- The server as it was, but for one client that it asks for.
  abbrev pub asking : Server T → Server T
  asking s = record s { accepting = s.accepting + 1 }

  -- A context that is stopped stays so.
  abbrev StaysStopped : Ending Host → Type ℓ
  StaysStopped o =
      (o ≡ terminates)
      ⊎ (o ≡ undefined)
      ⊎ ((t : Host) × (o ≡ returns t) × (w.stopped t.context ≡ true))

  launch_stays :
      (t : Thread) (h : Host)
      → w.stopped h.context ≡ true
      → StaysStopped (host_call (starts false false) (record h { thread = t }))
  unfolding start_host launch wait_for_client_connection
  launch_stays unused h stopped = inr (inr (_, refl, stopped))
  launch_stays joinable h stopped = inl refl

  method_stays :
      (f : Server T → Option (Server T)) (h : Host)
      → w.stopped h.context ≡ true
      → StaysStopped (method f h)
  unfolding method
  method_stays f h stopped =
      elim (f h.object)
        as (λ (o : Option (Server T)). StaysStopped (elim o as (λ _. Ending Host) [
          | none ↦ undefined
          | some object ↦ returns (record h { object = object })
        ])) [ none ↦ inr (inl refl) | some object ↦ inr (inr (_, refl, stopped)) ]

  call_stays : (c : HostCall) (h : Host) → w.stopped h.context ≡ true → StaysStopped (host_call c h)
  unfolding start_host stop_host halt wait_for_client_connection
  call_stays (starts true thread_fails) h stopped = inr (inr (h, refl, stopped))
  call_stays (starts false true) h stopped = inr (inr (_, refl, stopped))
  call_stays (starts false false) h stopped = launch_stays h.thread h stopped
  call_stays stops h stopped = inr (inr (stop_host h, refl, w.stopped-stop h.context))
  call_stays (updates cb max_messages) h stopped =
      method_stays (update_loop cb max_messages) h stopped
  call_stays (messages_client cb client msg) h stopped =
      method_stays (message_client cb.on_client_disconnect client msg) h stopped
  call_stays (messages_all cb msg ignore) h stopped =
      method_stays (message_all_clients cb.on_client_disconnect msg ignore) h stopped
  call_stays (handler f) h stopped = inr (inr (h, handle-stopped w f h stopped, stopped))

  then_same :
      (f g : Host → Ending Host) (o : Ending Host)
      → StaysStopped o
      → ((t : Host) → w.stopped t.context ≡ true → f t ≡ g t)
      → then_calls f o ≡ then_calls g o
  then_same f g o stays same = elim stays [
    | inl ends ↦ ap (then_calls f) ends ∙ sym (ap (then_calls g) ends)
    | inr (inl bad) ↦ ap (then_calls f) bad ∙ sym (ap (then_calls g) bad)
    | inr (inr (t, goes, stopped)) ↦
        ap (then_calls f) goes ∙ same t stopped ∙ sym (ap (then_calls g) goes)
  ]

  deaf :
      (cs : List HostCall) (h : Host)
      → w.stopped h.context ≡ true
      → host_calls cs h ≡ host_calls (methods_only cs) h
  deaf [] h stopped = refl
  deaf (handler f ∷ cs) h stopped =
      ap (then_calls (host_calls cs)) (handle-stopped w f h stopped) ∙ deaf cs h stopped
  deaf (starts throws thread_fails ∷ cs) h stopped =
      then_same (host_calls cs) (host_calls (methods_only cs)) _
        (call_stays (starts throws thread_fails) h stopped) (deaf cs)
  deaf (stops ∷ cs) h stopped =
      then_same (host_calls cs) (host_calls (methods_only cs)) _ (call_stays (stops) h stopped)
        (deaf cs)
  deaf (updates cb max_messages ∷ cs) h stopped =
      then_same (host_calls cs) (host_calls (methods_only cs)) _
        (call_stays (updates cb max_messages) h stopped) (deaf cs)
  deaf (messages_client cb client msg ∷ cs) h stopped =
      then_same (host_calls cs) (host_calls (methods_only cs)) _
        (call_stays (messages_client cb client msg) h stopped) (deaf cs)
  deaf (messages_all cb msg ignore ∷ cs) h stopped =
      then_same (host_calls cs) (host_calls (methods_only cs)) _
        (call_stays (messages_all cb msg ignore) h stopped) (deaf cs)

  -- A server is started once. `Start` begins to wait for a client and returns true, and the thread
  -- runs handlers; to start it a second time ends the program. After `Stop` it may be started
  -- again, and `Start` returns true again; but the context was not restarted, and no handler runs
  -- any more: whatever methods of the server are called from then on, in whatever order, `Update`
  -- and the sending of messages included, the outcome is that of the methods alone, whichever
  -- handlers could have been run between them. So it never accepts a client or receives a message
  -- again.
  pub starts_once :
      (s : Server T) (cs : List HostCall) (h : Host)
      → let first = new_hosted w s in
        let again = stop_host h in
        (t : Host) × (start_host false false first ≡ returns (true, t))
        × (t.object ≡ asking s)
        × (runs w t ≡ true)
        × (start_host false false t ≡ terminates)
        × (u : Host) × (start_host false false again ≡ returns (true, u))
        × (u.object ≡ asking h.object)
        × (host_calls cs u ≡ host_calls (methods_only cs) u)
  unfolding start_host stop_host launch halt wait_for_client_connection
  starts_once s cs h = (
    record { object = asking s; context = w.fresh; thread = joinable },
    refl,
    refl,
    ap not w.stopped-fresh,
    refl,
    record { object = asking h.object; context = w.stop h.context; thread = joinable },
    refl,
    refl,
    deaf cs _ (w.stopped-stop h.context),
  )
