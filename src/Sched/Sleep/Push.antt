-- ===== src/Sched/Sleep/Push.antt =====
-- `push` and `remove_task` of the sleep queue of os/src/process/scheduler/nanosleep.rs.
use os.Base.{
  ℕ, ◌+◌, ◌%◌, ◌^◌, ◌<◌, ◌≡◌, refl, ◌∙◌, none, some, List, ◌∷◌, ◌++◌, ◌==◌, if◌then◌else◌, arith,
  ==_refl,
}
use os.Sched.Sleep.{SleepTask, SleepEntry, SleepQueue, retain_other, push, remove_task}
use os.Sched.Sleep.Deadlines.{
  tid_count, IsValid, up_to, later_than, heap_push_lem, deadline_of, tid_count-retain_other,
  deadline_of-retain_other, ByDeadline-retain_other, MadeBefore-retain_other, tid_count-heap_push,
  deadline_of-heap_push, ByDeadline-heap_push, MadeBefore-heap_push,
}

-- What `push` leaves.
pub record Pushed (q : SleepQueue) (deadline_ns : ℕ) (task : SleepTask) (q' : SleepQueue)
    : Type 0 where
  pub valid : IsValid q'
  pub place :
      let others : List SleepEntry = retain_other q.inner task.tid in
      q'.inner
      ≡ up_to deadline_ns others
        ++ (record { deadline_ns = deadline_ns; order = q.enqueue_order; task = task }
            ∷ later_than deadline_ns others)
  pub deadlines :
      (tid : ℕ)
      → deadline_of tid q'.inner
        ≡ (if task.tid == tid then some deadline_ns else deadline_of tid q.inner)

-- `push` of a task into a valid queue, before its counter wraps: the task has one entry, with the new
-- deadline, behind all entries of other tasks whose deadline is not later and before all whose deadline
-- is. Every other thread keeps the deadline it had, and the queue stays valid.
pub push-Pushed :
    (q : SleepQueue) (deadline_ns : ℕ) (task : SleepTask)
    → IsValid q
    → q.enqueue_order + 1 < 2 ^ 64
    → Pushed q deadline_ns task (push q deadline_ns task)
unfolding push
push-Pushed q deadline_ns task v room =
    let others : List SleepEntry = retain_other q.inner task.tid in
    let e : SleepEntry = record {
      deadline_ns = deadline_ns;
      order = q.enqueue_order;
      task = task;
    } in
    let sorted = ByDeadline-retain_other task.tid q.inner v.sorted in
    let made = MadeBefore-retain_other q.enqueue_order task.tid q.inner v.made in
    let gone : tid_count task.tid others ≡ 0 =
      tid_count-retain_other task.tid task.tid q.inner ∙ rw (==_refl task.tid) refl in
    record {
      valid = record {
        sorted = ByDeadline-heap_push others e sorted;
        made =
            MadeBefore-heap_push q.enqueue_order ((q.enqueue_order + 1) % 2 ^ 64) others e made
              (omega arith) (omega arith);
        once = λ tid. ground (
          arith,
          tid_count-heap_push tid others e,
          tid_count-retain_other tid task.tid q.inner,
          v.once tid,
        );
      };
      place = heap_push_lem others e sorted made;
      deadlines = λ tid. ground (
        arith,
        deadline_of-heap_push tid others e gone,
        deadline_of-retain_other tid task.tid q.inner,
      );
    }

-- `remove_task` of a valid queue leaves no entry of the thread, what every other thread had, and a valid
-- queue.
pub remove_task_lem :
    (q : SleepQueue) (t : ℕ)
    → IsValid q
    → IsValid (remove_task q t)
      × ((tid : ℕ)
          → deadline_of tid (remove_task q t).inner
            ≡ (if t == tid then none else deadline_of tid q.inner))
unfolding remove_task
remove_task_lem q t v = (
  record {
    sorted = ByDeadline-retain_other t q.inner v.sorted;
    made = MadeBefore-retain_other q.enqueue_order t q.inner v.made;
    once = λ tid. ground (arith, tid_count-retain_other tid t q.inner, v.once tid);
  },
  λ tid. deadline_of-retain_other tid t q.inner,
)
