-- ===== src/Sync/Semaphore/Safety.antt =====
-- How many threads hold a guard of os/src/sync/semaphore.rs.
use os.Base.{ℕ, ◌+◌, ◌≤◌, ◌≢◌, refl, set, arith, get_elem?-set_ne, ◌∙◌}
use os.Base.Sums.{total, total-set, total-replicate}
use os.Base.Int.{ℤ, pos, negsuc}
use os.Sync.Semaphore.{
  Pc, idle, asked, queued, holding, waking, System, Step, lock_free, lock_none, lock_wait, enqueue,
  unlock, unlock_wake, wake_nobody, wake_first, wake_stale, wake_up_task, Reach, begin, next,
  interrupted,
}

-- Threads with a guard, and threads that hand one on.
abbrev pub as_holder : Pc → ℕ
as_holder holding = 1
as_holder _ = 0

abbrev pub as_waker : Pc → ℕ
as_waker waking = 1
as_waker _ = 0

-- The permits that are free.
abbrev pub above : ℤ → ℕ
above (pos n) = n
above (negsuc n) = 0

abbrev Inv : ℕ → System → Type 0
Inv permits s = total as_holder s.pcs + total as_waker s.pcs + above s.count ≤ permits

Step-Inv : {permits : ℕ} {s t : System} → Step s t → Inv permits s → Inv permits t
Step-Inv {s = s} (lock_free i n e c) v =
    ground
      (arith, c, v, total-set as_holder s.pcs i holding e, total-set as_waker s.pcs i holding e)
Step-Inv {s = s} (lock_none i e c) v =
    ground (arith, c, v, total-set as_holder s.pcs i asked e, total-set as_waker s.pcs i asked e)
Step-Inv {s = s} (lock_wait i n e c) v =
    ground (arith, c, v, total-set as_holder s.pcs i asked e, total-set as_waker s.pcs i asked e)
Step-Inv {s = s} (enqueue i e) v =
    omega (arith, v, total-set as_holder s.pcs i queued e, total-set as_waker s.pcs i queued e)
Step-Inv {s = s} (unlock i n e c) v =
    ground (arith, c, v, total-set as_holder s.pcs i idle e, total-set as_waker s.pcs i idle e)
Step-Inv {s = s} (unlock_wake i n e c) v =
    ground (arith, c, v, total-set as_holder s.pcs i waking e, total-set as_waker s.pcs i waking e)
Step-Inv {s = s} (wake_nobody i e q) v =
    omega (arith, v, total-set as_holder s.pcs i idle e, total-set as_waker s.pcs i idle e)
Step-Inv {s = s} (wake_first i j e q f) v =
    let apart : j ≢ i = λ same. cc in
    let e' = get_elem?-set_ne s.pcs j i holding apart ∙ e in
    omega (
      arith,
      v,
      total-set as_holder s.pcs j holding f,
      total-set as_waker s.pcs j holding f,
      total-set as_holder (set s.pcs j holding) i idle e',
      total-set as_waker (set s.pcs j holding) i idle e',
    )
Step-Inv (wake_stale i j e q f) v = v

Reach-Inv : {permits threads k : ℕ} {s : System} → Reach permits threads k s → Inv (permits + k) s
Reach-Inv {threads = threads} begin =
    omega (
      arith,
      total-replicate as_holder threads idle refl,
      total-replicate as_waker threads idle refl,
    )
Reach-Inv (next r st) = Step-Inv st (Reach-Inv r)
Reach-Inv (interrupted {s = s} r (wake_up_task i e)) = omega (
  arith,
  Reach-Inv r,
  total-set as_holder s.pcs i holding e,
  total-set as_waker s.pcs i holding e,
)

-- In every reachable state the threads that hold a guard are at most as many as the permits and the
-- interrupts of queued threads before it together; without interrupts, as the permits.
pub holders_bounded :
    {permits threads k : ℕ} {s : System}
    → Reach permits threads k s
    → total as_holder s.pcs ≤ permits + k
holders_bounded r = omega (arith, Reach-Inv r)
