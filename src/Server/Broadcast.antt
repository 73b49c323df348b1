-- ===== src/Server/Broadcast.antt =====
-- `MessageAllClients` of net_server.h.
use network_study.Prelude.{
  ℕ, suc, ◌≡◌, refl, sym, ap, fun_ext, ◌∙◌, Bool, true, false, not, ◌&&◌, List, [], ◌∷◌, ◌++◌, map,
  append_assoc, append-nil, Option, none, some, ◌==◌, if◌then◌else◌, replicate, arith, Bool-cases,
  inl, inr,
}
use network_study.Message.{Message}
use network_study.Connection.{Connection, post_send, send}
use network_study.Server.{
  Server, update, ptr_eq, erase_all, message_entry, message_entries, message_all_clients,
}

-- A subclass whose `OnClientDisconnect` only looks at a connection, as both of the source's do.
abbrev pub Watches {ℓ} : {T : Type ℓ} → (Option ℕ → Server T → Option (Server T)) → Type ℓ
Watches {T} gone = (p : ℕ) (s : Server T) → gone (some p) s ≡ some s

module _ (is_open : ℕ → Bool) where
  -- The connections that stay, and those entries that are reset.
  unfoldable pub survivors : List ℕ → List ℕ
  survivors [] = []
  survivors (p ∷ ps) = let rest = survivors ps in if is_open p then p ∷ rest else rest

  abbrev mark : ℕ → Option ℕ
  mark p = if is_open p then some p else none

  abbrev some_dead : List ℕ → Bool
  some_dead [] = false
  some_dead (p ∷ ps) = let rest = some_dead ps in if not (is_open p) then true else rest

  erase_all-mark : (ps : List ℕ) → erase_all none (map mark ps) ≡ map some (survivors ps)
  unfolding erase_all survivors
  erase_all-mark [] = refl
  erase_all-mark (p ∷ ps) = elim (Bool-cases (is_open p)) [
    | inl e ↦ rw e (ap (◌∷◌ (some p)) (erase_all-mark ps))
    | inr e ↦ rw e (erase_all-mark ps)
  ]

  mark_all : (ps : List ℕ) → some_dead ps ≡ false → map mark ps ≡ map some (survivors ps)
  unfolding survivors
  mark_all [] h = refl
  mark_all (p ∷ ps) h = elim (Bool-cases (is_open p)) [
    | inl e ↦ rw e (ap (◌∷◌ (some p)) (mark_all ps (rw e at h)))
    | inr e ↦ ground arith
  ]

  module _ (ignore : Option ℕ) where
    -- How often a connection is sent to.
    unfoldable pub hits : ℕ → List ℕ → ℕ
    hits q [] = 0
    hits q (p ∷ ps) =
        let rest = hits q ps in
        if p == q && (is_open p && not (ptr_eq (some p) ignore)) then suc rest else rest

    module _ {ℓ} {T : Type ℓ} (msg : Message T) where
      abbrev cast : List ℕ → (ℕ → Connection T) → ℕ → Connection T
      cast [] h = h
      cast (p ∷ ps) h =
          cast ps
            (if is_open p && not (ptr_eq (some p) ignore) then update h p (send msg (h p)) else h)

      unfoldable pub sent_to : List ℕ → (ℕ → Connection T) → ℕ → Connection T
      sent_to ps h q = record (h q) { posts = (h q).posts ++ replicate (hits q ps) (post_send msg) }

      sent_to_step :
          (p : ℕ) (ps : List ℕ) (h : ℕ → Connection T) (q : ℕ)
          → sent_to ps
              (if is_open p && not (ptr_eq (some p) ignore) then update h p (send msg (h p)) else h)
              q
            ≡ sent_to (p ∷ ps) h q
      unfolding sent_to hits send
      sent_to_step p ps h q = elim (Bool-cases (is_open p && not (ptr_eq (some p) ignore))) [
        | inr off ↦ elim (Bool-cases (p == q)) [
          | inl same ↦ rw (off, same)
          | inr other ↦ rw (off, other)
        ]
        | inl on ↦ elim (Bool-cases (p == q)) [
          | inr other ↦ rw (on, other)
          | inl same ↦
              let e : p ≡ q = ground arith in
              rw (on, same, e) (ap (λ l. record (h q) { posts = l }) (append_assoc (h q).posts _ _))
        ]
      ]

      cast-posts : (ps : List ℕ) (h : ℕ → Connection T) (q : ℕ) → cast ps h q ≡ sent_to ps h q
      cast-posts [] h q =
          unfold sent_to hits in ap (λ l. record (h q) { posts = l }) (sym (append-nil (h q).posts))
      cast-posts (p ∷ ps) h q = cast-posts ps _ q ∙ sent_to_step p ps h q

      module _ (gone : Option ℕ → Server T → Option (Server T)) (watches : Watches gone) where
        OpenAs : Server T → Type 0
        OpenAs s = (p : ℕ) → (s.heap p).is_open ≡ is_open p

        entry_lem :
            (p : ℕ) (s : Server T)
            → OpenAs s
            → message_entry gone msg ignore (some p) s
              ≡ some (
                mark p,
                not (is_open p),
                record s {
                  heap =
                      if is_open p && not (ptr_eq (some p) ignore)
                      then update s.heap p (send msg (s.heap p))
                      else s.heap;
                },
              )
        unfolding message_entry OpenAs
        entry_lem p s o = elim (Bool-cases (is_open p)) [
          | inr e ↦ rw (o p, e, watches p s)
          | inl e ↦ elim (Bool-cases (ptr_eq (some p) ignore)) [
            | inl skip ↦ rw (o p, e, skip)
            | inr keep ↦ rw (o p, e, keep)
          ]
        ]

        OpenAs-step :
            (p : ℕ) (s : Server T)
            → OpenAs s
            → OpenAs (record s {
              heap =
                  if is_open p && not (ptr_eq (some p) ignore)
                  then update s.heap p (send msg (s.heap p))
                  else s.heap;
            })
        unfolding OpenAs send
        OpenAs-step p s o q = elim (Bool-cases (is_open p && not (ptr_eq (some p) ignore))) [
          | inr e ↦ rw e (o q)
          | inl e ↦ elim (Bool-cases (p == q)) [
            | inr other ↦ rw (e, other) (o q)
            | inl same ↦ let at : p ≡ q = ground arith in rw (e, same, at) (o q)
          ]
        ]

        entries_lem :
            (ps : List ℕ) (s : Server T)
            → OpenAs s
            → message_entries gone msg ignore (map some ps) s
              ≡ some (map mark ps, some_dead ps, record s { heap = cast ps s.heap })
        unfolding message_entries
        entries_lem [] s o = refl
        entries_lem (p ∷ ps) s o = rw (entry_lem p s o, entries_lem ps _ (OpenAs-step p s o))

        broadcast_lem :
            (s : Server T) (ps : List ℕ)
            → OpenAs s
            → s.connections ≡ map some ps
            → message_all_clients gone msg ignore s
              ≡ some (record s { connections = map some (survivors ps); heap = cast ps s.heap })
        unfolding message_all_clients
        broadcast_lem s ps o e =
            let entries = ap (λ l. message_entries gone msg ignore l s) e ∙ entries_lem ps s o in
            elim (Bool-cases (some_dead ps)) [
              | inl d ↦ rw (entries, d, erase_all-mark ps)
              | inr d ↦ rw (entries, d, mark_all ps d)
            ]

-- A message to all reaches every entry whose socket is open, but for the ignored client: each of its
-- connections has one more `Send` posted for each of its entries, and nothing else of it changes. The
-- entries whose socket is closed are removed, and the others stay, in order. This holds for a list
-- without nullptr and an `OnClientDisconnect` that changes nothing.
pub broadcast {ℓ} :
    {T : Type ℓ} (gone : Option ℕ → Server T → Option (Server T)) (msg : Message T)
    (ignore : Option ℕ) (s : Server T) (ps : List ℕ)
    → Watches gone
    → s.connections ≡ map some ps
    → let is_open = λ (p : ℕ). (s.heap p).is_open in
      (s' : Server T) × (message_all_clients gone msg ignore s ≡ some s')
      × (s'.connections ≡ map some (survivors is_open ps))
      × ((q : ℕ) → s'.heap q ≡ sent_to is_open ignore msg ps s.heap q)
broadcast gone msg ignore s ps w e =
    let is_open = λ (p : ℕ). (s.heap p).is_open in
    (
      _,
      broadcast_lem is_open ignore msg gone w s ps (unfold OpenAs in λ p. refl) e,
      refl,
      cast-posts is_open ignore msg ps s.heap,
    )

-- The server after a message to all.
pub broadcast_state {ℓ} :
    {T : Type ℓ} (gone : Option ℕ → Server T → Option (Server T)) (msg : Message T)
    (ignore : Option ℕ) (s : Server T) (ps : List ℕ)
    → Watches gone
    → s.connections ≡ map some ps
    → let is_open = λ (p : ℕ). (s.heap p).is_open in
      message_all_clients gone msg ignore s
      ≡ some (record s {
        connections = map some (survivors is_open ps);
        heap = sent_to is_open ignore msg ps s.heap;
      })
broadcast_state gone msg ignore s ps w e =
    let is_open = λ (p : ℕ). (s.heap p).is_open in
    broadcast_lem is_open ignore msg gone w s ps (unfold OpenAs in λ p. refl) e
    ∙ ap (λ h. some (record s { connections = map some (survivors is_open ps); heap = h }))
        (fun_ext (cast-posts is_open ignore msg ps s.heap))
