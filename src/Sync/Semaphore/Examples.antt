-- ===== src/Sync/Semaphore/Examples.antt =====
-- The theorems on the semaphore, applied to two threads and one permit.
use os.Base.{◌≤◌, refl, [], ◌∷◌, ◌+◌, arith, replicate}
use os.Base.Int.{pos, negsuc}
use os.Base.Sums.{total}
use os.Sync.Semaphore.{
  idle, holding, System, lock_free, lock_none, enqueue, wake_up_task, Reach, begin, next,
  interrupted,
}
use os.Sync.Semaphore.Safety.{as_holder, holders_bounded}
use os.Sync.Semaphore.Wakeup.{LostWakeup, lost_wakeup}

abbrev locked : System
locked = record { count = pos 0; queue = []; pcs = holding ∷ idle ∷ [] }

locked-Reach : Reach 1 2 0 locked
unfolding replicate
locked-Reach = next begin (lock_free 0 0 refl refl)

-- The second thread queues up, and a signal lets it return from `lock` while the first holds the guard.
abbrev two_holders : System
two_holders = record { count = negsuc 0; queue = 1 ∷ []; pcs = holding ∷ holding ∷ [] }

two_holders-Reach : Reach 1 2 1 two_holders
unfolding replicate
two_holders-Reach =
    interrupted (next (next locked-Reach (lock_none 1 refl refl)) (enqueue 1 refl))
      (wake_up_task 1 refl)

holders_bounded_example : total as_holder two_holders.pcs ≤ 1 + 1
holders_bounded_example = holders_bounded two_holders-Reach

lost_wakeup_example : LostWakeup 1 2 0 0 1 locked
lost_wakeup_example = lost_wakeup 0 1 locked-Reach (omega arith) refl refl refl refl
