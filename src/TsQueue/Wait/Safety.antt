-- ===== src/TsQueue/Wait/Safety.antt =====
-- What the two locks of net_tsqueue.h give.
use network_study.Prelude.{
  ◌≡◌, ◌≢◌, refl, ◌⊎◌, inl, inr, Bool, true, false, ◌&&◌, List, [], ◌∷◌, some, arith, if◌then◌else◌,
  Bool-cases,
}
use network_study.TsQueue.{push_back, pop_front, empty}
use network_study.TsQueue.Wait.{
  Owner, free, by_waiter, by_pusher, WaiterPc, testing, tested, entering, leaving, returned,
  popping, popped, PusherPc, idle, pushing, placed, notifying, notified, finishing, State, Waits,
  lock_test, test, loop, lock_wait, sleep, spurious, relock, again, leave, lock_pop, pop, next,
  Pushes, lock_push, place, lock_notify, notify, unlock_notify, unlock_push, waits, pushes, Reach,
  start, later,
}

-- The places at which a thread works on the deque.
abbrev pub waiter_inside : WaiterPc → Bool
waiter_inside testing = true
waiter_inside (tested _) = true
waiter_inside popping = true
waiter_inside popped = true
waiter_inside _ = false

abbrev pub pusher_inside {ℓ} : {A : Type ℓ} → PusherPc A → Bool
pusher_inside idle = false
pusher_inside _ = true

-- The places at which a thread holds muxBlocking.
abbrev pub waiter_blocks : WaiterPc → Bool
waiter_blocks entering = true
waiter_blocks leaving = true
waiter_blocks _ = false

abbrev pub pusher_blocks {ℓ} : {A : Type ℓ} → PusherPc A → Bool
pusher_blocks notifying = true
pusher_blocks notified = true
pusher_blocks _ = false

-- The waiting thread has seen an item and not yet taken it.
abbrev pub waiter_expects : WaiterPc → Bool
waiter_expects (tested false) = true
waiter_expects returned = true
waiter_expects popping = true
waiter_expects _ = false

abbrev owner_of : Bool → Bool → Owner
owner_of w p = if w then by_waiter else if p then by_pusher else free

module _ {ℓ} {A : Type ℓ} where
  pub record Inv (s : State A) : Type ℓ where
    pub queue_owner : s.mux_queue ≡ owner_of (waiter_inside s.waiter) (pusher_inside s.pusher)
    pub queue_one : (waiter_inside s.waiter && pusher_inside s.pusher) ≡ false
    pub blocking_owner : s.mux_blocking ≡ owner_of (waiter_blocks s.waiter) (pusher_blocks s.pusher)
    pub blocking_one : (waiter_blocks s.waiter && pusher_blocks s.pusher) ≡ false
    pub expected : waiter_expects s.waiter ≡ true → empty s.queue ≡ false

  empty-push_back : (q : List A) (a : A) → empty (push_back q a) ≡ false
  unfolding empty push_back
  empty-push_back [] a = refl
  empty-push_back (b ∷ q) a = refl

  Waits-Inv : {s t : State A} → Waits s t → Inv s → Inv t
  Waits-Inv (lock_test p q) v = ground arith
  Waits-Inv (test p) v = ground arith
  Waits-Inv (loop p) v = ground arith
  Waits-Inv (lock_wait p q) v = ground arith
  Waits-Inv (sleep p) v = ground arith
  Waits-Inv (spurious p) v = ground arith
  Waits-Inv (relock p q) v = ground arith
  Waits-Inv (again p) v = ground arith
  Waits-Inv (leave p) v = ground arith
  Waits-Inv (lock_pop p q) v = ground arith
  Waits-Inv (pop p q) v = ground arith
  Waits-Inv (next p) v = ground arith

  Pushes-Inv : {s t : State A} → Pushes s t → Inv s → Inv t
  Pushes-Inv (lock_push a p q) v = ground arith
  Pushes-Inv {s} (place {a} p) v = ground (arith, empty-push_back s.queue a)
  Pushes-Inv (lock_notify p q) v = ground arith
  Pushes-Inv (notify p) v = ground arith
  Pushes-Inv (unlock_notify p) v = ground arith
  Pushes-Inv (unlock_push p) v = ground arith

  pub Reach-Inv : {s : State A} → Reach s → Inv s
  Reach-Inv start = ground arith
  Reach-Inv (later r (waits w)) = Waits-Inv w (Reach-Inv r)
  Reach-Inv (later r (pushes p)) = Pushes-Inv p (Reach-Inv r)

  -- The two threads are never on the deque at once, and never hold muxBlocking at once.
  mutual_exclusion :
      {s : State A}
      → Reach s
      → ((waiter_inside s.waiter && pusher_inside s.pusher) ≡ false)
        × ((waiter_blocks s.waiter && pusher_blocks s.pusher) ≡ false)
  mutual_exclusion r = let v = Reach-Inv r in (v.queue_one, v.blocking_one)

  pop_front-some :
      (q : List A) → empty q ≡ false → (a : A) × (r : List A) × (pop_front q ≡ some (a, r))
  unfolding empty pop_front
  pop_front-some [] h = cc
  pop_front-some (a ∷ q) h = (a, q, refl)

  -- When `wait` has returned there is an item, and the `pop_front` that follows finds it: it is never
  -- called on an empty queue, whatever the pushing thread does meanwhile.
  pub wait-pop_front :
      {s : State A}
      → Reach s
      → (s.waiter ≡ returned) ⊎ (s.waiter ≡ popping)
      → (a : A) × (q : List A) × (pop_front s.queue ≡ some (a, q))
  wait-pop_front {s} r h =
      pop_front-some s.queue ((Reach-Inv r).expected (elim h [ inl e ↦ rw e | inr e ↦ rw e ]))

  pusher_moves :
      (s : State A) (p : PusherPc A)
      → s.pusher ≡ p
      → s.pusher ≢ idle
      → (s.pusher ≡ placed → s.mux_blocking ≡ free)
      → (t : State A) × Pushes s t
  pusher_moves s idle e h k = absurd (h e)
  pusher_moves s (pushing a) e h k = (_, place e)
  pusher_moves s placed e h k = (_, lock_notify e (k e))
  pusher_moves s notifying e h k = (_, notify e)
  pusher_moves s notified e h k = (_, unlock_notify e)
  pusher_moves s finishing e h k = (_, unlock_push e)

  blocking_waiter_moves :
      (s : State A) (w : WaiterPc)
      → s.waiter ≡ w
      → waiter_blocks w ≡ true
      → (t : State A) × Waits s t × (t.mux_blocking ≡ free)
  blocking_waiter_moves s entering e h = (_, sleep e, refl)
  blocking_waiter_moves s leaving e h = (_, again e, refl)
  blocking_waiter_moves s _ e h = cc

  -- A push that has begun never waits for good: its thread can move on, or the waiting thread holds
  -- muxBlocking and its next step gives it up.
  pub push_goes_on :
      {s : State A}
      → Reach s
      → s.pusher ≢ idle
      → ((t : State A) × Pushes s t) ⊎ ((t : State A) × Waits s t × (t.mux_blocking ≡ free))
  push_goes_on {s} r h = elim (Bool-cases (waiter_blocks s.waiter)) [
    | inl e ↦ inr (blocking_waiter_moves s s.waiter refl e)
    | inr e ↦ inl (pusher_moves s s.pusher refl h (λ p. let v = Reach-Inv r in ground arith))
  ]
