-- ===== src/Sync/Semaphore.antt =====
-- os/src/sync/semaphore.rs, with `block_current_and_run_next` and `wake_up_one` of
-- os/src/process/scheduler/wait.rs: a counting semaphore, an atomic access at a time. Threads
-- interleave in any order over one semaphore, and `wake_up_task` of
-- os/src/process/scheduler/runqueue.rs may wake a thread that sleeps in its queue: signals and exits
-- call it. A thread that is about to sleep and one that sleeps (`BlockSaving`, `Blocked`) are both
-- `queued` once they stand in the queue: `wake_up_one` treats them alike. The count does not reach
-- the ends of `isize`.
pub mod Safety
pub mod Wakeup
mod Examples
use os.Base.{ℕ, ◌+◌, ◌≡◌, ◌≢◌, List, [], ◌∷◌, ◌++◌, Option, some, get_elem?, set, replicate}
use os.Base.Int.{ℤ, pos, negsuc, inc, dec}

-- Where a thread stands.
pub data Pc : Type 0 where
  idle : Pc  -- holds no guard
  asked : Pc  -- has lowered a count below 1, and is not in the queue yet
  queued : Pc  -- in the queue, asleep
  holding : Pc  -- a `SemaphoreGuard`
  waking : Pc  -- has raised a negative count, before `wake_up_one`

pub record System : Type 0 where
  pub count : ℤ
  pub queue : List ℕ
  pub pcs : List Pc

pub data Step (s : System) : System → Type 0 where
  -- `lock`: the old count is at least 1.
  lock_free :
      (i n : ℕ)
      → get_elem? s.pcs i ≡ some idle
      → s.count ≡ pos (n + 1)
      → Step s (record s { count = dec s.count; pcs = set s.pcs i holding })
  -- `lock`: the old count is below 1.
  lock_none :
      (i : ℕ)
      → get_elem? s.pcs i ≡ some idle
      → s.count ≡ pos 0
      → Step s (record s { count = dec s.count; pcs = set s.pcs i asked })
  lock_wait :
      (i n : ℕ)
      → get_elem? s.pcs i ≡ some idle
      → s.count ≡ negsuc n
      → Step s (record s { count = dec s.count; pcs = set s.pcs i asked })
  -- `block_current_and_run_next` puts the thread into the queue.
  enqueue :
      (i : ℕ)
      → get_elem? s.pcs i ≡ some asked
      → Step s (record s { queue = s.queue ++ (i ∷ []); pcs = set s.pcs i queued })
  -- The drop of a guard: the old count is not negative, or it is.
  unlock :
      (i n : ℕ)
      → get_elem? s.pcs i ≡ some holding
      → s.count ≡ pos n
      → Step s (record s { count = inc s.count; pcs = set s.pcs i idle })
  unlock_wake :
      (i n : ℕ)
      → get_elem? s.pcs i ≡ some holding
      → s.count ≡ negsuc n
      → Step s (record s { count = inc s.count; pcs = set s.pcs i waking })
  -- `wake_up_one`: nobody is in the queue; its first thread sleeps, and returns from `lock` with a
  -- guard; or it does not sleep, and is dropped.
  wake_nobody :
      (i : ℕ)
      → get_elem? s.pcs i ≡ some waking
      → s.queue ≡ []
      → Step s (record s { pcs = set s.pcs i idle })
  wake_first :
      (i j : ℕ) {rest : List ℕ}
      → get_elem? s.pcs i ≡ some waking
      → s.queue ≡ j ∷ rest
      → get_elem? s.pcs j ≡ some queued
      → Step s (record s { queue = rest; pcs = set (set s.pcs j holding) i idle })
  wake_stale :
      (i j : ℕ) {rest : List ℕ}
      → get_elem? s.pcs i ≡ some waking
      → s.queue ≡ j ∷ rest
      → get_elem? s.pcs j ≢ some queued
      → Step s (record s { queue = rest })

-- `wake_up_task` on a thread in the queue, from outside of the semaphore: the thread returns from `lock`
-- with a guard, and its entry stays in the queue.
pub data Interrupt (s : System) : System → Type 0 where
  wake_up_task :
      (i : ℕ)
      → get_elem? s.pcs i ≡ some queued
      → Interrupt s (record s { pcs = set s.pcs i holding })

-- `Semaphore::new` with `permits`
abbrev pub start : ℕ → ℕ → System
start permits threads = record { count = pos permits; queue = []; pcs = replicate threads idle }

-- The runs, with the number of interrupts.
pub data Reach (permits threads : ℕ) : ℕ → System → Type 0 where
  begin : Reach permits threads 0 (start permits threads)
  next : {k : ℕ} {s t : System} → Reach permits threads k s → Step s t → Reach permits threads k t
  interrupted :
      {k : ℕ} {s t : System}
      → Reach permits threads k s
      → Interrupt s t
      → Reach permits threads (k + 1) t
