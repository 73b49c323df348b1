-- ===== src/Server/Unicast.antt =====
-- `MessageClient` of net_server.h.
use network_study.Prelude.{
  ℕ, ◌≡◌, refl, sym, ap, ◌∙◌, true, false, List, [], ◌∷◌, map, Option, none, some,
}
use network_study.Message.{Message}
use network_study.Connection.{send}
use network_study.Server.{Server, update, erase_all, message_client}
use network_study.Server.Broadcast.{Watches}

erase_all-none : (ps : List ℕ) → erase_all none (map some ps) ≡ map some ps
unfolding erase_all
erase_all-none [] = refl
erase_all-none (p ∷ ps) = ap (◌∷◌ (some p)) (erase_all-none ps)

-- `MessageClient` posts one `Send` to a client whose socket is open, and touches nothing else. With
-- a client whose socket is closed it changes nothing at all: the pointer is reset before the list is
-- searched for it, so a list without nullptr keeps the dead client.
pub message_client_lem {ℓ} :
    {T : Type ℓ} (gone : Option ℕ → Server T → Option (Server T)) (p : ℕ) (msg : Message T)
    (s : Server T) (ps : List ℕ)
    → Watches gone
    → s.connections ≡ map some ps
    → ((s.heap p).is_open ≡ true
        → message_client gone (some p) msg s
          ≡ some (record s { heap = update s.heap p (send msg (s.heap p)) }))
      × ((s.heap p).is_open ≡ false → message_client gone (some p) msg s ≡ some s)
unfolding message_client
message_client_lem gone p msg s ps w e = (
  λ o. rw o,
  λ o.
      rw (o, w p s)
        (ap (λ l. some (record s { connections = l }))
          (ap (erase_all none) e ∙ erase_all-none ps ∙ sym e)),
)
