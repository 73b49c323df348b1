-- ===== src/Server/Dispatch.antt =====
-- The loop of `Update` of net_server.h, between two arrivals of messages.
use network_study.Prelude.{ℕ, zero, suc, ◌≡◌, refl, List, [], ◌∷◌, some, ◌>>=◌}
use network_study.TsQueue.{pop_front, empty}
use network_study.Connection.{OwnedMessage}
use network_study.Server.{Server, Callbacks, update_loop}

module _ {ℓ} {T : Type ℓ} (cb : Callbacks T) where
  pub update_loop_cons :
      (n : ℕ) (s : Server T) (m : OwnedMessage T) (rest : List (OwnedMessage T))
      → s.messages_in ≡ m ∷ rest
      → update_loop cb (suc n) s
        ≡ (cb.on_message m.remote m.msg (record s { messages_in = rest }) >>= update_loop cb n)
  unfolding update_loop empty pop_front
  update_loop_cons n s m rest e = simp (e, update_loop, empty, pop_front)

  pub update_loop_nil : (n : ℕ) (s : Server T) → s.messages_in ≡ [] → update_loop cb n s ≡ some s
  unfolding update_loop empty
  update_loop_nil zero s e = refl
  update_loop_nil (suc n) s e = simp (e, update_loop)
