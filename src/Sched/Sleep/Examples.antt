-- ===== src/Sched/Sleep/Examples.antt =====
-- Three sleeping tasks of os/src/process/scheduler/nanosleep.rs, two of them with the same deadline.
use os.Base.{◌≡◌, refl, [], ◌∷◌, arith, none, some}
use os.Sched.Sleep.{
  SleepTask, SleepQueue, push, pop_all_expired, pop_all_from, heap_push, retain_other, greater, new,
  pop_expired,
}
use os.Sched.Sleep.Deadlines.{IsValid, tid_count}
use os.Sched.Sleep.Push.{Pushed, push-Pushed}
use os.Sched.Sleep.Expiry.{Expired, pop_all_expired-Expired}

abbrev task_5 : SleepTask
task_5 = record { tid = 5; address = 0x500 }

abbrev task_6 : SleepTask
task_6 = record { tid = 6; address = 0x600 }

abbrev task_7 : SleepTask
task_7 = record { tid = 7; address = 0x700 }

abbrev three : SleepQueue
three = record {
  inner =
      record { deadline_ns = 100; order = 1; task = task_6 }
      ∷ (record { deadline_ns = 100; order = 2; task = task_5 }
          ∷ (record { deadline_ns = 300; order = 0; task = task_7 } ∷ []));
  enqueue_order = 3;
}

pushed : push (push (push new 300 task_7) 100 task_6) 100 task_5 ≡ three
unfolding push heap_push retain_other greater
pushed = refl

three-IsValid : IsValid three
unfolding tid_count
three-IsValid = record {
  sorted = ((omega arith, (omega arith, tt)), ((omega arith, tt), (tt, tt)));
  made = (omega arith, (omega arith, (omega arith, tt)));
  once = λ tid. ground arith;
}

-- Task 7 sleeps anew, until 100: behind the two others.
push-Pushed_example : Pushed three 100 task_7 (push three 100 task_7)
push-Pushed_example = push-Pushed three 100 task_7 three-IsValid (omega arith)

pop_all_expired-Expired_example :
    Expired three 200 (pop_all_expired three 200).0 (pop_all_expired three 200).1
pop_all_expired-Expired_example = pop_all_expired-Expired three 200 three-IsValid

popped : (pop_all_expired three 200).0 ≡ task_6 ∷ (task_5 ∷ [])
unfolding pop_all_expired pop_all_from
popped = refl

-- One at a time.
popped_first : (pop_expired three 200).0 ≡ some task_6
popped_first = refl

none_due : (pop_expired three 99).0 ≡ none
none_due = refl
