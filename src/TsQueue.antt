-- ===== src/TsQueue.antt =====
-- boost_asio_olc/NetCommon/net_tsqueue.h, one call at a time: the operations on the deque that
-- run under `muxQueue`. The queue is the list of its items, front first; `front`, `back` and the
-- pops of an empty deque are undefined behaviour, `none`. `TsQueue.Wait` has the threads.
pub mod Fifo
pub mod Wait
use network_study.Prelude.{ℕ, Bool, true, false, List, [], ◌∷◌, ◌++◌, Option, none, some, length}

module _ {ℓ} {A : Type ℓ} where
  unfoldable pub front : List A → Option A
  front [] = none
  front (a ∷ q) = some a

  -- The deque without its last item, and that item.
  unfoldable pub pop_back : List A → Option (A × List A)
  pop_back [] = none
  pop_back (a ∷ q) = elim (pop_back q) [ none ↦ some (a, []) | some (b, r) ↦ some (b, a ∷ r) ]

  unfoldable pub back : List A → Option A
  unfolding pop_back
  back q = elim (pop_back q) [ none ↦ none | some (b, r) ↦ some b ]

  unfoldable pub push_back : List A → A → List A
  push_back q a = q ++ (a ∷ [])

  unfoldable pub push_front : List A → A → List A
  push_front q a = a ∷ q

  unfoldable pub empty : List A → Bool
  empty [] = true
  empty (a ∷ q) = false

  unfoldable pub count : List A → ℕ
  count q = length q

  unfoldable pub clear : List A → List A
  clear q = []

  unfoldable pub pop_front : List A → Option (A × List A)
  pop_front [] = none
  pop_front (a ∷ q) = some (a, q)
