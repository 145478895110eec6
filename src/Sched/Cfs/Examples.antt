-- ===== src/Sched/Cfs/Examples.antt =====
-- A fair queue of two tasks, over the tree that is the list of its entries.
use os.Base.{ℕ, refl, [], ◌∷◌, arith}
use os.Sched.Tree.{Tree}
use os.Sched.Tree.Listed.{listed}
use os.Sched.Cfs.{CfsKey, key_lt, Entities, CfsRq}
use os.Sched.Cfs.Valid.{Entry, IsFair}

abbrev tree : Tree CfsKey ℕ key_lt
tree = listed key_lt

abbrev early : Entry
early = (record { vruntime = 50; enqueue_order = 1; tid = 3 }, 3)

abbrev late : Entry
late = (record { vruntime = 60; enqueue_order = 0; tid = 4 }, 4)

abbrev entities : Entities
entities = record { vruntime = λ t. 50; load_weight = λ t. 1024 }

abbrev queue : CfsRq tree
queue = record {
  load = 2048;
  nr_queued = 2;
  h_nr_queued = 2;
  min_vruntime = 40;
  tasks_timeline = early ∷ (late ∷ []);
  enqueue_order = 2;
}

queue-IsFair : IsFair {T = tree} queue
queue-IsFair = (((refl, tt), (tt, tt)), (omega arith, (omega arith, tt)), refl, refl)
