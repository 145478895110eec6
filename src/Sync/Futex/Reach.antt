-- ===== src/Sync/Futex/Reach.antt =====
-- Threads that use the futex queues of os/src/process/scheduler/futex.rs in any order.
use os.Base.{ℕ, ◌≡◌, refl, Bool, none, [], count}
use os.Ipc.Table.{lookup}
use os.Sync.Futex.{
  Store, block_current_on_futex_if, wake_futex_waiters, requeue_futex_waiters,
  retire_futex_wait_queue_if_unused, retire_futex_wait_queue_by_key_if_unused, remove_futex_waiter,
  recheck_location,
}
use os.Sync.Futex.Invariant.{Consistent}
use os.Sync.Futex.Steps.{
  wake_futex_waiters-Consistent, requeue_futex_waiters-Consistent,
  block_current_on_futex_if-Consistent, retire_futex_wait_queue_if_unused-Consistent,
  retire_futex_wait_queue_by_key_if_unused-Consistent, Ends, remove_futex_waiter-Ends, Rechecks,
  recheck_location-Rechecks,
}

-- A call under its locks. A new waiter has no location; everything else about the caller is free:
-- which queue it holds, which location it read, what its checks say.
pub data Step (s : Store) : Store → Type 0 where
  blocks :
      (key w : ℕ) (should_block : Bool)
      → s.location w ≡ none
      → Step s (block_current_on_futex_if s key w should_block)
  wakes : (n q mask : ℕ) → Step s (wake_futex_waiters n s q mask).1
  requeues :
      (src_key dst_key wake_count requeue_count : ℕ) (should_requeue : Bool)
      → Step s (requeue_futex_waiters s src_key dst_key wake_count requeue_count should_requeue).2
  retires :
      (key q strong_count : ℕ) → Step s (retire_futex_wait_queue_if_unused s key q strong_count)
  retires_by_key :
      (key strong_count : ℕ) → Step s (retire_futex_wait_queue_by_key_if_unused s key strong_count)
  removes : (w key q : ℕ) (upgrades : Bool) → Step s (remove_futex_waiter s w key q upgrades).1

-- No queue was made yet.
abbrev pub start : (ℕ → ℕ) → Store
start bitset = record {
  queues = [];
  contents = λ q. [];
  location = λ w. none;
  bitset = bitset;
  fresh = 0;
}

pub data Reach (bitset : ℕ → ℕ) : Store → Type 0 where
  begin : Reach bitset (start bitset)
  next : {s t : Store} → Reach bitset s → Step s t → Reach bitset t

-- In every reachable store each waiter stands in the queue that its location names, exactly once, and in no
-- other, and in none if it has no location; the map has that queue under the location's key, and
-- nothing stands in a queue that was never made.
pub Reach-Consistent : (bitset : ℕ → ℕ) {s : Store} → Reach bitset s → Consistent s
unfolding count lookup
Reach-Consistent bitset begin = (λ w q. refl, λ w. tt, λ key. tt, λ j. refl)
Reach-Consistent bitset (next {s} r step) = kept (Reach-Consistent bitset r) step
  where
    kept : {t : Store} → Consistent s → Step s t → Consistent t
    kept v (blocks key w sb free) = block_current_on_futex_if-Consistent s key w sb v free
    kept v (wakes n q mask) = wake_futex_waiters-Consistent n s q mask v
    kept v (requeues sk dk wc rc sr) = requeue_futex_waiters-Consistent s sk dk wc rc sr v
    kept v (retires key q c) = retire_futex_wait_queue_if_unused-Consistent s key q c v
    kept v (retires_by_key key c) = retire_futex_wait_queue_by_key_if_unused-Consistent s key c v
    kept v (removes w key q up) = (remove_futex_waiter-Ends s w key q up v).0

-- In a reachable store `remove_futex_waiter`, with whatever location it read before, takes the waiter out
-- under the lock if it stands in the queue; the waiter then has no location and stands in no queue. Else
-- it changes nothing, and the waiter is not in the queue. In the reachable store of its second look,
-- after the lock, the assertion fails only if the waiter stands in just that queue, so has come back.
pub Reach-remove_futex_waiter :
    (bitset : ℕ → ℕ) {s t : Store} (w key q : ℕ) (upgrades : Bool)
    → Reach bitset s
    → Reach bitset t
    → Ends s w q (remove_futex_waiter s w key q upgrades)
      × Rechecks t w key q (recheck_location t w key q)
Reach-remove_futex_waiter bitset {s} {t} w key q upgrades r later = (
  (remove_futex_waiter-Ends s w key q upgrades (Reach-Consistent bitset r)).1,
  recheck_location-Rechecks t w key q (Reach-Consistent bitset later),
)
