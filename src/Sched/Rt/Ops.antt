-- ===== src/Sched/Rt/Ops.antt =====
-- Every operation of os/src/process/scheduler/rt_rq.rs keeps the run queue's invariant.
use os.Base.{
  ℕ, zero, suc, ◌^◌, get_elem?-middle, remove_at-middle, ◌+◌, ◌/◌, ◌%◌, ◌<◌, ◌≡◌, refl, ap, sym,
  true, false, not, some, List, [], ◌∷◌, ◌++◌, arith, ◌==◌, if◌then◌else◌, length, get_elem?, set,
  length-append, inl, inr, lt→ltb, replicate, length-replicate, remove_at, get_or-replicate,
  get_or-replicate_cases,
}
use os.Sched.Task.{Task, sched_rr, position, Absent, position-middle}
use os.Sched.Rt.{
  RtPrioArray, RtRq, put_back, new, new_array, enqueue, dequeue, queue_at, is_empty, max_rt_prio,
  counted_out, zero_word, set_bit,
}
use os.Sched.Rt.Bits.{bit}
use os.Sched.Rt.Valid.{
  total, rr_count, rr_total, total-set, rr_total-set, rr_count-append, IsArray, IsValid,
  written-IsArray, put_back-IsArray, queue-put_back,
}

total-replicate : (n : ℕ) → total (replicate n []) ≡ 0
unfolding total replicate
total-replicate zero = refl
total-replicate (suc n) = omega (arith, total-replicate n)

rr_total-replicate : (n : ℕ) → rr_total (replicate n []) ≡ 0
unfolding rr_total replicate rr_count
rr_total-replicate zero = refl
rr_total-replicate (suc n) = omega (arith, rr_total-replicate n)

bit-zero : (p : ℕ) → bit (replicate 2 zero_word) p ≡ false
unfolding bit
bit-zero p = elim (get_or-replicate_cases 2 (p / 64) zero_word []) [
  | inl e ↦ rw e (get_or-replicate 64 (p % 64) false)
  | inr e ↦ rw e
]

-- A new run queue is valid.
pub new-IsValid : IsValid new
unfolding new new_array
new-IsValid = record {
  array = record {
    words = unfold replicate in (refl, (refl, tt));
    two_words = length-replicate 2 zero_word;
    queues = length-replicate {A = List Task} 100 [];
    marked = λ p h. rw (bit-zero p, get_or-replicate {A = List Task} 100 p []);
    unused = λ p h k. bit-zero p;
  };
  running = sym (total-replicate 100);
  rr_running = sym (rr_total-replicate 100);
}

append-not_empty : (q : List Task) (t : Task) → false ≡ is_empty (q ++ (t ∷ []))
append-not_empty [] t = refl
append-not_empty (x ∷ q) t = refl

-- `enqueue` of a task at a priority below 100 succeeds, puts it at the end of its queue, and keeps
-- the run queue valid if the flag says whether the task is under SCHED_RR.
pub enqueue-IsValid :
    (r : RtRq) (task : Task) (priority : ℕ)
    → IsValid r
    → priority < max_rt_prio
    → (r' : RtRq) × (enqueue r task priority (task.sched_policy == sched_rr) ≡ some r')
      × IsValid r'
      × (r'.active.queue ≡ set r.active.queue priority (queue_at r.active priority ++ (task ∷ [])))
unfolding enqueue set_bit rr_count
enqueue-IsValid r task priority v h = (
  result,
  rw (lt→ltb priority 100 h),
  record {
    array = written-IsArray r.active priority q v.array h true (ap not (append-not_empty old task));
    running = omega (
      arith,
      v.running,
      total-set r.active.queue priority q inside,
      length-append old (task ∷ []),
    );
    rr_running = ground (
      arith,
      v.rr_running,
      rr_total-set r.active.queue priority q inside,
      rr_count-append old (task ∷ []),
    );
  },
  refl,
)
  where
    old : List Task
    old = queue_at r.active priority

    q : List Task
    q = old ++ (task ∷ [])

    inside : priority < length r.active.queue
    inside = omega (arith, v.array.queues)

    result : RtRq
    result = record r {
      active = set_bit (record r.active { queue = set r.active.queue priority q }) priority;
      rt_nr_running = r.rt_nr_running + 1;
      rr_nr_running =
          (if task.sched_policy == sched_rr then r.rr_nr_running + 1 else r.rr_nr_running);
    }

-- A task leaves queue `p` of a valid array: the array stays valid, and the counts fall by it.
module _ (a : RtPrioArray) (p : ℕ) (before : List Task) (task : Task) (after : List Task)
    (v : IsArray a) (h : p < max_rt_prio) (whole : queue_at a p ≡ before ++ (task ∷ after)) where
  leaving-IsArray : IsArray (put_back a p (before ++ after))
  leaving-IsArray =
      put_back-IsArray a p (before ++ after) v h
        (omega (arith, ap length whole, length-append before (task ∷ after)))

  leaving_total : total (put_back a p (before ++ after)).queue + 1 ≡ total a.queue
  leaving_total = rw (queue-put_back a p (before ++ after) v h) (
      omega (
        arith,
        total-set a.queue p (before ++ after) (omega (arith, v.queues)),
        ap length whole,
        length-append before (task ∷ after),
        length-append before after,
      ))

  leaving_rr :
      rr_total (put_back a p (before ++ after)).queue
        + (if task.sched_policy == sched_rr then 1 else 0)
      ≡ rr_total a.queue
  unfolding rr_count
  leaving_rr = rw (queue-put_back a p (before ++ after) v h) (
      omega (
        arith,
        rr_total-set a.queue p (before ++ after) (omega (arith, v.queues)),
        ap rr_count whole,
        rr_count-append before (task ∷ after),
        rr_count-append before after,
      ))

-- The run queue that `pop_next` and `remove_task` leave behind.
pub counted_out-IsValid :
    (r : RtRq) (p : ℕ) (before : List Task) (task : Task) (after : List Task)
    → IsValid r
    → p < max_rt_prio
    → queue_at r.active p ≡ before ++ (task ∷ after)
    → IsValid (counted_out r (put_back r.active p (before ++ after)) task)
counted_out-IsValid r p before task after v h whole = record {
  array = leaving-IsArray r.active p before task after v.array h whole;
  running = omega (arith, v.running, leaving_total r.active p before task after v.array h whole);
  rr_running =
      ground (arith, v.rr_running, leaving_rr r.active p before task after v.array h whole);
}

-- `dequeue` takes out the first task of the queue with the thread id, and keeps the run queue valid
-- if the flag says whether that task is under SCHED_RR.
pub dequeue-IsValid :
    (r : RtRq) (priority : ℕ) (before : List Task) (task : Task) (after : List Task)
    → IsValid r
    → priority < max_rt_prio
    → r.rt_nr_running < 2 ^ 64
    → r.rr_nr_running < 2 ^ 64
    → queue_at r.active priority ≡ before ++ (task ∷ after)
    → Absent before task.tid
    → let (found, r') = dequeue r task.tid priority (task.sched_policy == sched_rr) in
      (found ≡ some task)
      × IsValid r'
      × (r'.active.queue ≡ set r.active.queue priority (before ++ after))
unfolding dequeue
dequeue-IsValid r p before task after v h fits rr_fits whole first = rw dequeued (
  refl,
  counted_out-IsValid r p before task after v h whole,
  queue-put_back r.active p (before ++ after) v.array h,
)
  where
    result : RtRq
    result = counted_out r (put_back r.active p (before ++ after)) task

    dequeued : dequeue r task.tid p (task.sched_policy == sched_rr) ≡ (some task, result)
    dequeued = ground (
      arith,
      ap (λ q. position q task.tid) whole,
      ap (λ q. get_elem? q (length before)) whole,
      ap (λ q. remove_at q (length before)) whole,
      position-middle before task after task.tid first refl,
      get_elem?-middle before task after,
      remove_at-middle before task after,
      v.running,
      v.rr_running,
      leaving_total r.active p before task after v.array h whole,
      leaving_rr r.active p before task after v.array h whole,
    )
