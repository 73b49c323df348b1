-- ===== src/Context/Halting.antt =====
-- What a context that has been stopped does.
use network_study.Prelude.{◌≡◌, refl, ap, true, false, not, ◌&&◌, List, [], ◌∷◌, Option}
use network_study.Context.{
  IoContext, unused, joinable, is_joinable, returns, Hosted, runs, handle, handle_all,
}

module _ {ℓ} {S : Type ℓ} (w : IoContext) where
  stopped-runs : (h : Hosted w S) → w.stopped h.context ≡ true → runs w h ≡ false
  stopped-runs h stopped =
      elim h.thread as (λ t. (is_joinable t && not (w.stopped h.context)) ≡ false) [
        | unused ↦ refl
        | joinable ↦ ap not stopped
      ]

  -- It runs no handler, whatever may be waiting.
  pub handle-stopped :
      (f : S → Option S) (h : Hosted w S) → w.stopped h.context ≡ true → handle w f h ≡ returns h
  unfolding handle
  handle-stopped f h stopped = rw (handle, stopped-runs h stopped) refl

  pub handle_all-stopped :
      (fs : List (S → Option S)) (h : Hosted w S)
      → w.stopped h.context ≡ true
      → handle_all w fs h ≡ returns h
  unfolding handle_all
  handle_all-stopped [] h stopped = refl
  handle_all-stopped (f ∷ fs) h stopped =
      rw (handle_all, handle-stopped f h stopped) (handle_all-stopped fs h stopped)
