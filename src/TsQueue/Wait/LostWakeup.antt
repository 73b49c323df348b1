-- ===== src/TsQueue/Wait/LostWakeup.antt =====
-- A notification that comes between the test of `wait` and its sleep is lost.
use network_study.Prelude.{◌≡◌, ap, refl, ◌⊎◌, inl, inr, [], ◌∷◌}
use network_study.TsQueue.{push_back, empty}
use network_study.TsQueue.Wait.{
  free, by_pusher, seen_empty, asleep, woken, idle, pushing, State, Waits, lock_test, test, loop,
  lock_wait, sleep, spurious, relock, again, leave, lock_pop, pop, next, Pushes, lock_push, place,
  lock_notify, notify, unlock_notify, unlock_push, Step, waits, pushes, init, Reach, start, later,
}

module _ {ℓ} {A : Type ℓ} where
  -- The queue holds an item, the push is over, and the waiting thread sleeps.
  abbrev pub overslept : A → State A
  overslept a = record {
    queue = a ∷ [];
    mux_queue = free;
    mux_blocking = free;
    waiter = asleep;
    pusher = idle;
  }

  saw_empty : Reach {A = A} (record init { waiter = seen_empty })
  unfolding empty
  saw_empty =
      later (later (later start (waits (lock_test refl refl))) (waits (test refl)))
        (waits (loop refl))

  pushed_meanwhile : (a : A) → Reach (record (overslept a) { waiter = seen_empty })
  unfolding push_back
  pushed_meanwhile a =
      let r1 = later saw_empty (pushes (lock_push a refl refl)) in
      let r2 = later r1 (pushes (place refl)) in
      let r3 = later r2 (pushes (lock_notify refl refl)) in
      let r4 = later r3 (pushes (notify refl)) in
      let r5 = later r4 (pushes (unlock_notify refl)) in later r5 (pushes (unlock_push refl))

  overslept-Reach : (a : A) → Reach (overslept a)
  overslept-Reach a =
      later (later (pushed_meanwhile a) (waits (lock_wait refl refl))) (waits (sleep refl))

  asleep-Waits : {s t : State A} → Waits s t → s.waiter ≡ asleep → t ≡ record s { waiter = woken }
  asleep-Waits (spurious p) h = refl
  asleep-Waits (lock_test p q) h = cc
  asleep-Waits (test p) h = cc
  asleep-Waits (loop p) h = cc
  asleep-Waits (lock_wait p q) h = cc
  asleep-Waits (sleep p) h = cc
  asleep-Waits (relock p q) h = cc
  asleep-Waits (again p) h = cc
  asleep-Waits (leave p) h = cc
  asleep-Waits (lock_pop p q) h = cc
  asleep-Waits (pop p q) h = cc
  asleep-Waits (next p) h = cc

  idle-Pushes :
      {s t : State A}
      → Pushes s t
      → s.pusher ≡ idle
      → (b : A) × (t ≡ record s { pusher = pushing b; mux_queue = by_pusher })
  idle-Pushes (lock_push b p q) h = (b, refl)
  idle-Pushes (place p) h = cc
  idle-Pushes (lock_notify p q) h = cc
  idle-Pushes (notify p) h = cc
  idle-Pushes (unlock_notify p) h = cc
  idle-Pushes (unlock_push p) h = cc

  overslept-Step :
      (a : A) {s t : State A}
      → s ≡ overslept a
      → Step s t
      → (t ≡ record s { waiter = woken })
        ⊎ ((b : A) × (t ≡ record s { pusher = pushing b; mux_queue = by_pusher }))
  overslept-Step a e (waits w) = inl (asleep-Waits w (ap (λ s. s.waiter) e))
  overslept-Step a e (pushes p) = inr (idle-Pushes p (ap (λ s. s.pusher) e))

  -- For every item there is a run in which the item is pushed and `wait` sleeps all the same, and
  -- from there only a spurious wake-up or another push goes on.
  pub lost_wakeup :
      (a : A)
      → Reach (overslept a)
        × ((t : State A)
            → Step (overslept a) t
            → (t ≡ record (overslept a) { waiter = woken })
              ⊎ ((b : A) × (t
                    ≡ record (overslept a) { pusher = pushing b; mux_queue = by_pusher })))
  lost_wakeup a = (overslept-Reach a, λ t. overslept-Step a refl)
