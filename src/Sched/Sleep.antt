-- ===== src/Sched/Sleep.antt =====
-- os/src/process/scheduler/nanosleep.rs: the queue of the tasks that sleep until a deadline. The
-- `BinaryHeap` is the list of its entries from the greatest, which it pops first, to the least. A task
-- is its thread id and the address of its control block.
pub mod Deadlines
pub mod Push
pub mod Expiry
mod Examples
use os.Base.{
  ℕ, ◌+◌, ◌-◌, ◌%◌, ◌^◌, ◌*◌, min, Bool, true, false, Option, none, some, List, [], ◌∷◌, ltb, leb,
  ◌==◌, if◌then◌else◌,
}

pub record SleepTask : Type 0 where
  pub tid : ℕ
  pub address : ℕ

pub record SleepEntry : Type 0 where
  pub deadline_ns : ℕ
  pub order : ℕ
  pub task : SleepTask

-- Whether `SleepEntry::cmp` gives `Greater`: the earlier deadline, then the smaller order, then the
-- greater address.
unfoldable pub greater : SleepEntry → SleepEntry → Bool
greater a b =
    if ltb a.deadline_ns b.deadline_ns
    then true
    else (if ltb b.deadline_ns a.deadline_ns
        then false
        else (if ltb a.order b.order
            then true
            else (if ltb b.order a.order then false else ltb b.task.address a.task.address)))

pub record SleepQueue : Type 0 where
  pub inner : List SleepEntry
  pub enqueue_order : ℕ

abbrev pub new : SleepQueue
new = record { inner = []; enqueue_order = 0 }

-- `BinaryHeap::push`
unfoldable pub heap_push : List SleepEntry → SleepEntry → List SleepEntry
unfolding greater
heap_push [] e = e ∷ []
heap_push (x ∷ xs) e = let rest = heap_push xs e in if greater e x then e ∷ (x ∷ xs) else x ∷ rest

-- `retain` of the entries whose task has another thread id.
unfoldable pub retain_other : List SleepEntry → ℕ → List SleepEntry
retain_other [] tid = []
retain_other (x ∷ xs) tid =
    let rest = retain_other xs tid in if x.task.tid == tid then rest else x ∷ rest

unfoldable pub push : SleepQueue → ℕ → SleepTask → SleepQueue
push q deadline_ns task = record {
  inner =
      heap_push (retain_other q.inner task.tid)
        (record { deadline_ns = deadline_ns; order = q.enqueue_order; task = task });
  enqueue_order = (q.enqueue_order + 1) % 2 ^ 64;
}

unfoldable pub remove_task : SleepQueue → ℕ → SleepQueue
remove_task q tid = record q { inner = retain_other q.inner tid }

abbrev pub pop_expired : SleepQueue → ℕ → Option SleepTask × SleepQueue
pop_expired q now_ns = elim q.inner [
  | [] ↦ (none, q)
  | e ∷ es ↦ if leb e.deadline_ns now_ns then (some e.task, record q { inner = es }) else (none, q)
]

-- The loop of `pop_all_expired`: the tasks that it takes out, and the entries that it leaves.
unfoldable pub pop_all_from : ℕ → List SleepEntry → List SleepTask × List SleepEntry
pop_all_from now_ns [] = ([], [])
pop_all_from now_ns (e ∷ es) =
    let (tasks, rest) = pop_all_from now_ns es in
    if leb e.deadline_ns now_ns then (e.task ∷ tasks, rest) else ([], e ∷ es)

unfoldable pub pop_all_expired : SleepQueue → ℕ → List SleepTask × SleepQueue
unfolding pop_all_from
pop_all_expired q now_ns =
    let (tasks, rest) = pop_all_from now_ns q.inner in (tasks, record q { inner = rest })

-- `monotonic_now_ns`, of the microseconds that the timer gives.
abbrev pub monotonic_now_ns : ℕ → ℕ
monotonic_now_ns time_us = min (time_us * 1000) (2 ^ 64 - 1)
