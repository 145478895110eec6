-- ===== src/Sched/Rt.antt =====
-- os/src/process/scheduler/rt_rq.rs: the real-time run queue, a bitmap over 100 FIFO queues.
-- A `u64` of the bitmap, which is only used as a set of bits, is its 64 bits, lowest first.
-- A panic is `none`.
pub mod Bits
pub mod Valid
pub mod Ops
pub mod Pick
pub mod Remove
mod Examples
use mathlib.Core.Option
use os.Base.{
  ℕ, zero, suc, ◌+◌, ◌-◌, ◌*◌, ◌/◌, ◌%◌, ◌^◌, Bool, true, false, ◌&&◌, ◌||◌, not, Option, none,
  some, List, [], ◌∷◌, ◌++◌, ltb, leb, ◌==◌, if◌then◌else◌, length, get_or, get_elem?, set,
  replicate, remove_at,
}
use os.Sched.Task.{Task, sched_rr, position}

abbrev pub max_rt_prio : ℕ
max_rt_prio = 100

abbrev pub rt_bitmap_words : ℕ
rt_bitmap_words = (max_rt_prio + 63) / 64

abbrev pub Word : Type 0
Word = List Bool

abbrev pub zero_word : Word
zero_word = replicate 64 false

-- `RtPrioArray`
pub record RtPrioArray : Type 0 where
  pub bitmap : List Word
  pub queue : List (List Task)

pub new_array : RtPrioArray
unfolding replicate
new_array = record {
  bitmap = replicate rt_bitmap_words zero_word;
  queue = replicate max_rt_prio [];
}

-- bitmap[priority / 64] |= 1 << (priority % 64), and &= !(…) for `false`
abbrev pub write_bit : List Word → ℕ → Bool → List Word
write_bit words priority b =
    set words (priority / 64) (set (get_or words (priority / 64) []) (priority % 64) b)

pub set_bit : RtPrioArray → ℕ → RtPrioArray
set_bit a priority = record a { bitmap = write_bit a.bitmap priority true }

pub clear_bit : RtPrioArray → ℕ → RtPrioArray
clear_bit a priority = record a { bitmap = write_bit a.bitmap priority false }

-- *word != 0
pub any_bit : Word → Bool
any_bit [] = false
any_bit (b ∷ bs) = b || any_bit bs

pub trailing_zeros : Word → ℕ
trailing_zeros [] = 0
trailing_zeros (b ∷ bs) = if b then 0 else suc (trailing_zeros bs)

pub find_word : ℕ → List Word → Option ℕ
find_word word_index [] = none
find_word word_index (word ∷ words) =
    let rest = find_word (word_index + 1) words in
    if any_bit word then some (word_index * 64 + trailing_zeros word) else rest

pub highest_priority : RtPrioArray → Option ℕ
highest_priority a = find_word 0 a.bitmap

-- `RtPushableTask`. Nothing in the program pops the heap, so it is a bag of entries.
pub record RtPushableTask : Type 0 where
  pub priority : ℕ
  pub task : Task

pub record RtRq : Type 0 where
  pub active : RtPrioArray
  pub pushable_tasks : List RtPushableTask
  pub rt_nr_running : ℕ
  pub rr_nr_running : ℕ
  pub rt_time : ℕ
  pub rt_runtime : ℕ
  pub rt_throttled : Bool

unfoldable pub new : RtRq
unfolding new_array
new = record {
  active = new_array;
  pushable_tasks = [];
  rt_nr_running = 0;
  rr_nr_running = 0;
  rt_time = 0;
  rt_runtime = 2 ^ 64 - 1;
  rt_throttled = false;
}

-- The queue of a priority below 100.
abbrev pub queue_at : RtPrioArray → ℕ → List Task
queue_at a priority = get_or a.queue priority []

abbrev pub is_empty : List Task → Bool
is_empty [] = true
is_empty (t ∷ ts) = false

-- `queue[priority] = rest`, and the bit is cleared if nothing is left there.
pub put_back : RtPrioArray → ℕ → List Task → RtPrioArray
unfolding clear_bit
put_back a priority rest =
    let a' : RtPrioArray = record a { queue = set a.queue priority rest } in
    if is_empty rest then clear_bit a' priority else a'

pub enqueue : RtRq → Task → ℕ → Bool → Option RtRq
unfolding set_bit
enqueue r task priority round_robin =
    if ltb priority max_rt_prio
    then some (record r {
      active =
          set_bit
            (record r.active {
              queue = set r.active.queue priority (queue_at r.active priority ++ (task ∷ []));
            })
            priority;
      rt_nr_running = r.rt_nr_running + 1;
      rr_nr_running = (if round_robin then r.rr_nr_running + 1 else r.rr_nr_running);
    })
    else none

-- `dequeue`; the plain decrements panic at 0 in a debug build, and wrap in a release build.
abbrev wrapping_pred : ℕ → ℕ
wrapping_pred n = (n + 2 ^ 64 - 1) % 2 ^ 64

pub dequeue : RtRq → ℕ → ℕ → Bool → Option Task × RtRq
unfolding put_back
dequeue r tid priority round_robin =
    if leb max_rt_prio priority
    then (none, r)
    else elim (position (queue_at r.active priority) tid) [
      | none ↦ (none, r)
      | some i ↦
          let queue = queue_at r.active priority in
          (
            get_elem? queue i,
            record r {
              active = put_back r.active priority (remove_at queue i);
              rt_nr_running = wrapping_pred r.rt_nr_running;
              rr_nr_running =
                  (if round_robin then wrapping_pred r.rr_nr_running else r.rr_nr_running);
            },
          )
    ]

-- `VecDeque::rotate_left(1)`
abbrev pub rotate_left : List Task → List Task
rotate_left [] = []
rotate_left (t ∷ ts) = ts ++ (t ∷ [])

pub rotate_rr : RtRq → ℕ → RtRq
rotate_rr r priority =
    if ltb priority max_rt_prio && ltb 1 (length (queue_at r.active priority))
    then record r {
      active = record r.active {
        queue = set r.active.queue priority (rotate_left (queue_at r.active priority));
      };
    }
    else r

abbrev pub front : List Task → Option Task
front [] = none
front (t ∷ ts) = some t

pub pick_next : RtRq → Option Task
unfolding highest_priority
pick_next r = if r.rt_throttled then none else elim (highest_priority r.active) [
  | none ↦ none
  | some priority ↦ front (queue_at r.active priority)
]

-- The counters after a task has left, in `pop_next` and `remove_task`.
abbrev pub counted_out : RtRq → RtPrioArray → Task → RtRq
counted_out r active task = record r {
  active = active;
  rt_nr_running = r.rt_nr_running - 1;
  rr_nr_running = (if task.sched_policy == sched_rr then r.rr_nr_running - 1 else r.rr_nr_running);
}

pub pop_front_of : RtRq → ℕ → List Task → Option Task × RtRq
unfolding put_back
pop_front_of r priority [] = (none, r)
pop_front_of r priority (task ∷ rest) =
    (some task, counted_out r (put_back r.active priority rest) task)

pub pop_next : RtRq → Option Task × RtRq
unfolding highest_priority pop_front_of
pop_next r = if r.rt_throttled then (none, r) else elim (highest_priority r.active) [
  | none ↦ (none, r)
  | some priority ↦ pop_front_of r priority (queue_at r.active priority)
]

pub enqueue_pushable : RtRq → Task → ℕ → RtRq
enqueue_pushable r task priority = record r {
  pushable_tasks = record { priority = priority; task = task } ∷ r.pushable_tasks;
}

pub retain_pushable : List RtPushableTask → ℕ → List RtPushableTask
retain_pushable [] tid = []
retain_pushable (e ∷ es) tid =
    if e.task.tid == tid then retain_pushable es tid else e ∷ retain_pushable es tid

pub dequeue_pushable : RtRq → ℕ → RtRq
unfolding retain_pushable
dequeue_pushable r tid = record r { pushable_tasks = retain_pushable r.pushable_tasks tid }

-- The body of the loop of `remove_task` at a queue that holds the thread at index `i`.
pub remove_from : RtRq → ℕ → ℕ → Option Task × RtRq
unfolding put_back
remove_from r priority i =
    let queue = queue_at r.active priority in
    elim (get_elem? queue i) [
      | none ↦ (none, r)
      | some task ↦ (some task, counted_out r (put_back r.active priority (remove_at queue i)) task)
    ]

-- `for priority in 0..MAX_RT_PRIO`, from `priority` for `rounds` rounds
pub remove_scan : RtRq → ℕ → ℕ → ℕ → Option Task × RtRq
unfolding remove_from
remove_scan r tid priority zero = (none, r)
remove_scan r tid priority (suc rounds) =
    let rest = remove_scan r tid (priority + 1) rounds in
    elim (position (queue_at r.active priority) tid) [
      | none ↦ rest
      | some i ↦ remove_from r priority i
    ]

pub remove_task : RtRq → ℕ → Option Task × RtRq
remove_task r tid = remove_scan r tid 0 max_rt_prio
