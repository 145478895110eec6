-- ===== src/Sync/Futex/Examples.antt =====
-- Three waiters, of which one is woken and one requeued.
use os.Base.{◌+◌, min, ◌≡◌, refl, none, some, [], ◌∷◌, ◌++◌, true, length, take, drop, arith}
use os.Ipc.Table.{lookup, insert}
use os.Sync.Futex.{
  Store, put, entry, attach, block_current_on_futex_if, wake_futex_waiters, requeue_futex_waiters,
  remove_futex_waiter, missed, recheck_location, assertion_fails, remove_waiter, wake_front,
  move_front,
}
use os.Sync.Futex.Invariant.{Consistent}
use os.Sync.Futex.Steps.{Ends, Rechecks}
use os.Sync.Futex.Reach.{
  start, Reach, begin, next, blocks, requeues, Reach-Consistent, Reach-remove_futex_waiter,
}
use os.Sync.Futex.Order.{choose, wake_futex_waiters_lem, requeue_futex_waiters_lem}

-- Waiters 0 and 1 block on key 7.
abbrev blocked_one : Store
blocked_one = block_current_on_futex_if (start (λ w. 1)) 7 0 true

abbrev blocked_two : Store
blocked_two = block_current_on_futex_if blocked_one 7 1 true

blocked_two-Reach : Reach (λ w. 1) blocked_two
unfolding block_current_on_futex_if entry attach lookup insert os.Ipc.Table.delete
blocked_two-Reach = next (next begin (blocks 7 0 true refl)) (blocks 7 1 true refl)

Reach-Consistent_example : Consistent blocked_two
Reach-Consistent_example = Reach-Consistent (λ w. 1) blocked_two-Reach

-- Waiter 1 was moved to key 8 when its removal from key 7 fails, and is back before the second look.
abbrev moved : Store
moved = (requeue_futex_waiters blocked_two 7 8 0 2 true).2

abbrev moved_back : Store
moved_back = (requeue_futex_waiters moved 8 7 0 2 true).2

moved-Reach : Reach (λ w. 1) moved
moved-Reach = next blocked_two-Reach (requeues 7 8 0 2 true)

moved_back-Reach : Reach (λ w. 1) moved_back
moved_back-Reach = next moved-Reach (requeues 8 7 0 2 true)

Reach-remove_futex_waiter_example :
    Ends moved 1 0 (remove_futex_waiter moved 1 7 0 true)
    × Rechecks moved_back 1 7 0 (recheck_location moved_back 1 7 0)
Reach-remove_futex_waiter_example =
    Reach-remove_futex_waiter (λ w. 1) 1 7 0 true moved-Reach moved_back-Reach

assertion_can_fail :
    ((remove_futex_waiter moved 1 7 0 true).0 ≡ missed)
    × (recheck_location moved_back 1 7 0 ≡ assertion_fails)
unfolding remove_futex_waiter remove_waiter recheck_location block_current_on_futex_if entry attach
    lookup insert os.Ipc.Table.delete requeue_futex_waiters wake_front move_front
assertion_can_fail = (refl, refl)

-- Waiters 0, 1 and 2 stand in queue 0 of key 7, waiter 3 in queue 1 of key 8.
abbrev store : Store
store = record {
  queues = (7, 0) ∷ ((8, 1) ∷ []);
  contents = put (put (λ q. []) 0 (0 ∷ (1 ∷ (2 ∷ [])))) 1 (3 ∷ []);
  location =
      put (put (put (put (λ w. none) 0 (some (7, 0))) 1 (some (7, 0))) 2 (some (7, 0))) 3
        (some (8, 1));
  bitset = λ w. w + 1;
  fresh = 2;
}

wake_futex_waiters_lem_example :
    ((wake_futex_waiters 1 store 0 2).0 ≡ (choose store.bitset 2 1 (store.contents 0)).0)
    × ((wake_futex_waiters 1 store 0 2).1.contents
        ≡ put store.contents 0 (choose store.bitset 2 1 (store.contents 0)).1)
    × ((wake_futex_waiters 1 store 0 2).1.queues ≡ store.queues)
    × ((wake_futex_waiters 1 store 0 2).1.bitset ≡ store.bitset)
wake_futex_waiters_lem_example = wake_futex_waiters_lem 1 store 0 2

requeue_futex_waiters_lem_example :
    ((requeue_futex_waiters store 7 8 1 1 true).0 ≡ some (min (1 + 1) (length (store.contents 0))))
    × ((requeue_futex_waiters store 7 8 1 1 true).1 ≡ take 1 (store.contents 0))
    × ((requeue_futex_waiters store 7 8 1 1 true).2.contents 0 ≡ drop 1 (drop 1 (store.contents 0)))
    × ((requeue_futex_waiters store 7 8 1 1 true).2.contents 1
        ≡ store.contents 1 ++ take 1 (drop 1 (store.contents 0)))
unfolding lookup
requeue_futex_waiters_lem_example =
    requeue_futex_waiters_lem store 7 8 1 1 0 1 (omega arith) (omega arith) refl refl
