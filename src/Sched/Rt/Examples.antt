-- ===== src/Sched/Rt/Examples.antt =====
-- The theorems on the real-time run queue, applied to a queue of one task.
use mathlib.Core.Path.{subst}
use os.Base.{◌≡◌, refl, sym, ◌∙◌, true, some, [], ◌∷◌, arith, set, replicate, some_eq}
use os.Sched.Task.{Task, sched_rr}
use os.Sched.Rt.Remove.{Removed, remove_task_lem}
use os.Sched.Rt.{RtRq, new, new_array, enqueue, set_bit, remove_task}
use os.Sched.Rt.Valid.{IsValid}
use os.Sched.Rt.Ops.{new-IsValid, enqueue-IsValid}
use os.Sched.Rt.Pick.{Pops, pop_next-Pops}

abbrev player : Task
player = record { tid = 7; sched_policy = sched_rr; prio = 89 }

-- The run queue with the task, after `enqueue`.
unfoldable one_task : RtRq
unfolding set_bit new_array
one_task = record new {
  active = set_bit (record new_array { queue = set new_array.queue 10 (player ∷ []) }) 10;
  rt_nr_running = 1;
  rr_nr_running = 1;
}

one_task-IsValid : IsValid one_task
unfolding one_task enqueue set_bit new new_array replicate
one_task-IsValid =
    let (r', e, v, q) = enqueue-IsValid new player 10 new-IsValid (omega arith) in
    let made : enqueue new player 10 true ≡ some one_task = refl in
    subst IsValid (some_eq (sym e ∙ made)) v

pop_next-Pops_example : Pops one_task
unfolding one_task new
pop_next-Pops_example = pop_next-Pops one_task one_task-IsValid refl

remove_task_lem_example : Removed one_task 7 (remove_task one_task 7)
remove_task_lem_example = remove_task_lem one_task 7 one_task-IsValid
