-- ===== src/Tests/Queues.antt =====
-- The queue, alone and between two threads.
use network_study.Prelude.{ℕ, ◌≡◌, refl, inl, ◌⊎◌, List, [], ◌∷◌, some}
use network_study.TsQueue.{push_back, empty, pop_front}
use network_study.TsQueue.Wait.{
  free, by_pusher, returned, woken, pushing, State, Waits, lock_test, test, leave, Pushes,
  lock_push, place, lock_notify, notify, unlock_notify, unlock_push, Step, waits, pushes, init,
  Reach, start, later,
}
use network_study.TsQueue.Wait.Safety.{wait-pop_front, push_goes_on}
use network_study.TsQueue.Wait.LostWakeup.{overslept, lost_wakeup}

-- The pushing thread has begun to push 5.
abbrev begun : State ℕ
begun = record init { pusher = pushing 5; mux_queue = by_pusher }

begun-Reach : Reach begun
begun-Reach = later start (pushes (lock_push 5 refl refl))

-- It has pushed 5, and `wait` has returned.
abbrev served : State ℕ
served = record init { queue = 5 ∷ []; waiter = returned }

served-Reach : Reach served
unfolding push_back empty
served-Reach =
    let r1 = later begun-Reach (pushes (place refl)) in
    let r2 = later r1 (pushes (lock_notify refl refl)) in
    let r3 = later r2 (pushes (notify refl)) in
    let r4 = later r3 (pushes (unlock_notify refl)) in
    let r5 = later r4 (pushes (unlock_push refl)) in
    later (later (later r5 (waits (lock_test refl refl))) (waits (test refl))) (waits (leave refl))

wait-pop_front_example : (a : ℕ) × (q : List ℕ) × (pop_front (5 ∷ []) ≡ some (a, q))
wait-pop_front_example = wait-pop_front served-Reach (inl refl)

push_goes_on_example :
    ((t : State ℕ) × Pushes begun t) ⊎ ((t : State ℕ) × Waits begun t × (t.mux_blocking ≡ free))
push_goes_on_example = push_goes_on begun-Reach (λ e. cc)

lost_wakeup_example :
    Reach (overslept {A = ℕ} 5)
    × ((t : State ℕ)
        → Step (overslept 5) t
        → (t ≡ record (overslept 5) { waiter = woken })
          ⊎ ((b : ℕ) × (t ≡ record (overslept 5) { pusher = pushing b; mux_queue = by_pusher })))
lost_wakeup_example = lost_wakeup 5
