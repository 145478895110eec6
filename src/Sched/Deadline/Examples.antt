-- ===== src/Sched/Deadline/Examples.antt =====
-- A deadline queue of two tasks, over the tree that is the list of its entries.
use os.Base.{ℕ, refl, false, [], ◌∷◌}
use os.Sched.Tree.{Tree}
use os.Sched.Tree.Listed.{listed}
use os.Sched.Deadline.{DeadlineKey, key_lt, never, DeadlineRq}
use os.Sched.Deadline.Valid.{Entry, IsOrdered}

abbrev tree : Tree DeadlineKey ℕ key_lt
tree = listed key_lt

abbrev soon : Entry
soon = (record { deadline = 100; tid = 8 }, 8)

abbrev later : Entry
later = (record { deadline = 250; tid = 2 }, 2)

abbrev queue : DeadlineRq tree
queue = record {
  root = soon ∷ (later ∷ []);
  pushable_dl_tasks_root = [];
  dl_nr_running = 2;
  earliest_dl_next = never;
  overloaded = false;
}

queue-IsOrdered : IsOrdered {T = tree} queue
queue-IsOrdered = (((refl, tt), (tt, tt)), refl)
