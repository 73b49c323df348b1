-- ===== src/Server/Clients.antt =====
-- The list of clients of net_server.h, and what `WaitForClientConnection` does to it.
use network_study.Prelude.{
  ℕ, ◌+◌, ◌^◌, ◌<◌, ◌≡◌, ◌≢◌, sym, ap, ◌∙◌, true, false, List, [], ◌∷◌, ◌++◌, map, map-append, some,
  ◌==◌, arith, All, All-append, All-map, All-zip, ==_self,
}
use network_study.Message.{to_uint32}
use network_study.Connection.{server, Connection, new_connection, connect_to_client, reading_header}
use network_study.Server.{Server, update, make_connection, approve, wait_for_client_connection}

-- What `OnClientConnect` may do: it may send, and leaves alone what the server goes by.
pub record Keeps {ℓ} {T : Type ℓ} (s t : Server T) : Type ℓ where
  pub same_list : t.connections ≡ s.connections
  pub same_counter : t.id_counter ≡ s.id_counter
  pub same_place : t.next_place ≡ s.next_place
  pub same_id : (q : ℕ) → (t.heap q).id ≡ (s.heap q).id
  pub same_open : (q : ℕ) → (t.heap q).is_open ≡ (s.heap q).is_open
  pub same_owner : (q : ℕ) → (t.heap q).owner_type ≡ (s.heap q).owner_type
  pub same_reads : (q : ℕ) → (t.heap q).reads ≡ (s.heap q).reads

module _ {ℓ} {T : Type ℓ} where
  -- No two of the connections have the same id.
  abbrev pub Distinct : (ℕ → Connection T) → List ℕ → Type 0
  Distinct h [] = Unit {0}
  Distinct h (p ∷ ps) = All (λ q. (h q).id ≢ (h p).id) ps × Distinct h ps

  -- The list holds the connections at `ps`, all made before, with different ids below the counter.
  pub record Inv (s : Server T) (ps : List ℕ) : Type ℓ where
    pub listed : s.connections ≡ map some ps
    pub made : All (λ p. p < s.next_place) ps
    pub below : All (λ p. (s.heap p).id < s.id_counter) ps
    pub distinct : Distinct s.heap ps

  Distinct-push :
      (h : ℕ → Connection T) (ps : List ℕ) (p : ℕ)
      → Distinct h ps
      → All (λ q. (h q).id < (h p).id) ps
      → Distinct h (ps ++ (p ∷ []))
  Distinct-push h [] p d b = (tt, tt)
  Distinct-push h (q ∷ ps) p d b =
      (All-append _ ps (p ∷ []) d.0 (omega arith, tt), Distinct-push h ps p d.1 b.1)

  -- `g` gives the connections at `ps` the ids that `h` gives them.
  pub Distinct-same :
      (g h : ℕ → Connection T) (ps : List ℕ)
      → All (λ q. (g q).id ≡ (h q).id) ps
      → Distinct h ps
      → Distinct g ps
  Distinct-same g h [] e d = tt
  Distinct-same g h (p ∷ ps) e d =
      (All-zip ps (λ q a b z. b (sym a ∙ z ∙ e.0)) e.1 d.0, Distinct-same g h ps e.1 d.1)

  update_self : (h : ℕ → Connection T) (p : ℕ) (c : Connection T) → update h p c p ≡ c
  update_self h p c = rw (==_self p)

  update_below : (h : ℕ → Connection T) (p q : ℕ) (c : Connection T) → q < p → update h p c q ≡ h q
  update_below h p q c lt = let ne : (p == q) ≡ false = ground arith in rw ne

  connect_lem :
      (uid : ℕ) (c : Connection T)
      → c.owner_type ≡ server
      → c.is_open ≡ true
      → c.reads ≡ []
      → ((connect_to_client uid c).id ≡ uid)
        × ((connect_to_client uid c).reads ≡ reading_header ∷ [])
  unfolding connect_to_client
  connect_lem uid c o p r = ground arith

  module _ (no_id : T) (s t : Server T) (k : Keeps (make_connection no_id s) t) where
    abbrev pub place : ℕ
    place = s.next_place

    abbrev pub made_one : Connection T
    made_one = new_connection server place true s.messages_in no_id

    -- The new connection, once approved.
    pub approved_self :
        (((approve place t).heap place).id ≡ s.id_counter)
        × (((approve place t).heap place).reads ≡ reading_header ∷ [])
    unfolding approve make_connection
    approved_self =
        let own : (t.heap place).owner_type ≡ server =
          k.same_owner place ∙ ap (λ c. c.owner_type) (update_self s.heap place made_one) in
        let opn : (t.heap place).is_open ≡ true =
          k.same_open place ∙ ap (λ c. c.is_open) (update_self s.heap place made_one) in
        let rds : (t.heap place).reads ≡ [] =
          k.same_reads place ∙ ap (λ c. c.reads) (update_self s.heap place made_one) in
        let (uid, waits) = connect_lem t.id_counter (t.heap place) own opn rds in
        let at = update_self t.heap place (connect_to_client t.id_counter (t.heap place)) in
        (ap (λ c. c.id) at ∙ uid ∙ k.same_counter, ap (λ c. c.reads) at ∙ waits)

    -- The older ones keep their ids.
    approved_older : (q : ℕ) → q < place → ((approve place t).heap q).id ≡ (s.heap q).id
    unfolding approve make_connection
    approved_older q lt =
        ap (λ c. c.id)
          (update_below t.heap place q (connect_to_client t.id_counter (t.heap place)) lt)
        ∙ k.same_id q
        ∙ ap (λ c. c.id) (update_below s.heap place q made_one lt)

    pub approve-Inv :
        (ps : List ℕ)
        → Inv s ps
        → s.id_counter + 1 < 2 ^ 32
        → Inv (approve place t) (ps ++ (place ∷ []))
    unfolding approve make_connection
    approve-Inv ps v lt =
        let g = (approve place t).heap in
        let (uid, waits) = approved_self in
        let same : All (λ q. (g q).id ≡ (s.heap q).id) ps = All-map ps approved_older v.made in
        let count : to_uint32 (t.id_counter + 1) ≡ s.id_counter + 1 =
          omega (arith, k.same_counter) in
        record {
          listed =
              ap (λ l. l ++ (some place ∷ [])) (k.same_list ∙ v.listed)
              ∙ sym (map-append some ps (place ∷ []));
          made =
              All-append _ ps (place ∷ []) (All-map ps (λ q b. omega (arith, k.same_place)) v.made)
                (omega (arith, k.same_place), tt);
          below =
              All-append _ ps (place ∷ []) (All-zip ps (λ q e b. omega arith) same v.below)
                (omega arith, tt);
          distinct =
              Distinct-push g ps place (Distinct-same g s.heap ps same v.distinct)
                (All-zip ps (λ q e b. omega arith) same v.below);
        }

    pub turned_away-Inv : (ps : List ℕ) → Inv s ps → Inv (wait_for_client_connection t) ps
    unfolding wait_for_client_connection make_connection
    turned_away-Inv ps v =
        let older : (q : ℕ) → q < place → (t.heap q).id ≡ (s.heap q).id =
          λ q lt. k.same_id q ∙ ap (λ c. c.id) (update_below s.heap place q made_one lt) in
        let same : All (λ q. (t.heap q).id ≡ (s.heap q).id) ps = All-map ps older v.made in
        record {
          listed = k.same_list ∙ v.listed;
          made = All-map ps (λ q b. omega (arith, k.same_place)) v.made;
          below = All-zip ps (λ q e b. omega (arith, k.same_counter)) same v.below;
          distinct = Distinct-same t.heap s.heap ps same v.distinct;
        }
