-- ===== src/TsQueue/Wait.antt =====
-- `wait` and `push_back` of net_tsqueue.h as two threads: the one that calls `wait` and then
-- `pop_front` in a loop (the application's), and the one that pushes (asio's). A step is one access
-- under a lock, one locking or one unlocking.
pub mod Safety
pub mod LostWakeup
use network_study.Prelude.{
  ◌≡◌, ◌≢◌, refl, ◌⊎◌, inl, inr, Bool, true, false, List, [], ◌∷◌, ◌++◌, Option, none, some, arith,
}
use network_study.TsQueue.{push_back, pop_front, empty}

pub data Owner : Type 0 where
  free by_waiter by_pusher : Owner

-- Where the waiting thread stands.
pub data WaiterPc : Type 0 where
  calling : WaiterPc  -- before `empty()` in the condition of the while
  testing : WaiterPc  -- in `empty()`, with muxQueue
  tested : Bool → WaiterPc  -- the value is known, muxQueue still held
  seen_empty : WaiterPc  -- `empty()` returned true
  entering : WaiterPc  -- `ul` holds muxBlocking, before `cvBlocking.wait`
  asleep : WaiterPc  -- in `cvBlocking.wait`, muxBlocking given up
  woken : WaiterPc  -- notified, muxBlocking not yet locked again
  leaving : WaiterPc  -- `cvBlocking.wait` returned, before the end of the block
  returned : WaiterPc  -- `wait` returned
  popping : WaiterPc  -- in `pop_front`, with muxQueue
  popped : WaiterPc  -- the item is out, muxQueue still held

-- Where the pushing thread stands.
pub data PusherPc {ℓ} (A : Type ℓ) : Type ℓ where
  idle : PusherPc A
  pushing : A → PusherPc A  -- muxQueue locked
  placed : PusherPc A  -- the item is in, before muxBlocking
  notifying : PusherPc A  -- muxBlocking locked too, before `notify_one`
  notified : PusherPc A  -- `notify_one` done, `ul` still alive
  finishing : PusherPc A  -- muxBlocking given up, `lock` still alive

pub record State {ℓ} (A : Type ℓ) : Type ℓ where
  pub queue : List A
  pub mux_queue : Owner
  pub mux_blocking : Owner
  pub waiter : WaiterPc
  pub pusher : PusherPc A

-- `notify_one` wakes the thread that waits on the condition variable, if one does.
abbrev pub notify_one : WaiterPc → WaiterPc
notify_one asleep = woken
notify_one w = w

module _ {ℓ} {A : Type ℓ} where
  -- A step of the waiting thread.
  pub data Waits (s : State A) : State A → Type ℓ where
    lock_test :
        s.waiter ≡ calling
        → s.mux_queue ≡ free
        → Waits s (record s { waiter = testing; mux_queue = by_waiter })
    test : s.waiter ≡ testing → Waits s (record s { waiter = tested (empty s.queue) })
    loop : s.waiter ≡ tested true → Waits s (record s { waiter = seen_empty; mux_queue = free })
    lock_wait :
        s.waiter ≡ seen_empty
        → s.mux_blocking ≡ free
        → Waits s (record s { waiter = entering; mux_blocking = by_waiter })
    sleep : s.waiter ≡ entering → Waits s (record s { waiter = asleep; mux_blocking = free })
    spurious : s.waiter ≡ asleep → Waits s (record s { waiter = woken })
    relock :
        s.waiter ≡ woken
        → s.mux_blocking ≡ free
        → Waits s (record s { waiter = leaving; mux_blocking = by_waiter })
    again : s.waiter ≡ leaving → Waits s (record s { waiter = calling; mux_blocking = free })
    leave : s.waiter ≡ tested false → Waits s (record s { waiter = returned; mux_queue = free })
    lock_pop :
        s.waiter ≡ returned
        → s.mux_queue ≡ free
        → Waits s (record s { waiter = popping; mux_queue = by_waiter })
    pop :
        {a : A} {q : List A}
        → s.waiter ≡ popping
        → pop_front s.queue ≡ some (a, q)
        → Waits s (record s { waiter = popped; queue = q })
    next : s.waiter ≡ popped → Waits s (record s { waiter = calling; mux_queue = free })

  -- A step of the pushing thread.
  pub data Pushes (s : State A) : State A → Type ℓ where
    lock_push :
        (a : A)
        → s.pusher ≡ idle
        → s.mux_queue ≡ free
        → Pushes s (record s { pusher = pushing a; mux_queue = by_pusher })
    place :
        {a : A}
        → s.pusher ≡ pushing a
        → Pushes s (record s { pusher = placed; queue = push_back s.queue a })
    lock_notify :
        s.pusher ≡ placed
        → s.mux_blocking ≡ free
        → Pushes s (record s { pusher = notifying; mux_blocking = by_pusher })
    notify :
        s.pusher ≡ notifying
        → Pushes s (record s { pusher = notified; waiter = notify_one s.waiter })
    unlock_notify :
        s.pusher ≡ notified → Pushes s (record s { pusher = finishing; mux_blocking = free })
    unlock_push : s.pusher ≡ finishing → Pushes s (record s { pusher = idle; mux_queue = free })

  pub data Step (s t : State A) : Type ℓ where
    waits : Waits s t → Step s t
    pushes : Pushes s t → Step s t

  -- Both threads start with an empty queue and no lock.
  abbrev pub init : State A
  init = record {
    queue = [];
    mux_queue = free;
    mux_blocking = free;
    waiter = calling;
    pusher = idle;
  }

  pub data Reach : State A → Type ℓ where
    start : Reach init
    later : {s t : State A} → Reach s → Step s t → Reach t
