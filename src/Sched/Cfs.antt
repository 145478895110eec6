-- ===== src/Sched/Cfs.antt =====
-- os/src/process/scheduler/cfs_rq.rs: the queue of fair tasks, over the interface of the red-black tree.
-- A task is its thread id; `Entities` has the `se.vruntime` and the `se.load_weight` of the tasks,
-- which the queue shares with them. `inv_weight` and `exec_clock` are never used and left out.
pub mod Valid
pub mod Leave
pub mod Fair
mod Examples
use os.Base.{
  ℕ, ◌+◌, ◌-◌, ◌%◌, ◌^◌, min, max, Bool, true, false, ◌&&◌, Option, none, some, ltb, leb, ◌==◌,
  if◌then◌else◌,
}
use os.Sched.Tree.{Tree}

pub record CfsKey : Type 0 where
  pub vruntime : ℕ
  pub enqueue_order : ℕ
  pub tid : ℕ

-- `Ord::cmp` is `Less`.
abbrev pub key_lt : CfsKey → CfsKey → Bool
key_lt a b =
    if a.vruntime == b.vruntime
    then (if a.enqueue_order == b.enqueue_order
        then ltb a.tid b.tid
        else ltb a.enqueue_order b.enqueue_order)
    else ltb a.vruntime b.vruntime

pub record Entities : Type 0 where
  pub vruntime : ℕ → ℕ
  pub load_weight : ℕ → ℕ

abbrev pub saturating_add : ℕ → ℕ → ℕ
saturating_add a b = min (a + b) (2 ^ 64 - 1)

module _ (T : Tree CfsKey ℕ key_lt) where
  pub record CfsRq : Type 0 where
    pub load : ℕ
    pub nr_queued : ℕ
    pub h_nr_queued : ℕ
    pub min_vruntime : ℕ
    pub tasks_timeline : Tree.Root T
    pub enqueue_order : ℕ

  abbrev pub new : CfsRq
  new = record {
    load = 0;
    nr_queued = 0;
    h_nr_queued = 0;
    min_vruntime = 0;
    tasks_timeline = Tree.new T;
    enqueue_order = 0;
  }

  -- The vruntime of the leftmost entity, or the given value if the timeline is empty.
  abbrev pub leftmost_or : Tree.Root T → ℕ → ℕ
  leftmost_or root other = elim (Tree.first T root) [ none ↦ other | some e ↦ e.0.vruntime ]

  unfoldable pub enqueue : CfsRq → Entities → ℕ → ℕ → ℕ → CfsRq × Entities
  enqueue rq entities task vruntime weight =
      let vruntime' : ℕ = max vruntime rq.min_vruntime in
      let key : CfsKey = record {
        vruntime = vruntime';
        enqueue_order = rq.enqueue_order;
        tid = task;
      } in
      let timeline : Tree.Root T = Tree.insert T rq.tasks_timeline key task in
      (
        record {
          load = saturating_add rq.load weight;
          nr_queued = rq.nr_queued + 1;
          h_nr_queued = rq.h_nr_queued + 1;
          min_vruntime = max rq.min_vruntime (leftmost_or timeline vruntime');
          tasks_timeline = timeline;
          enqueue_order = (rq.enqueue_order + 1) % 2 ^ 64;
        },
        record entities { vruntime = λ t. if t == task then vruntime' else entities.vruntime t },
      )

  -- `none` is the panic of a count that passes 0.
  unfoldable pub dequeue : CfsRq → Entities → ℕ → ℕ → ℕ → Option (Option ℕ × CfsRq)
  dequeue rq entities tid vruntime weight =
      let (task, timeline) =
        Tree.remove_where T rq.tasks_timeline
          (λ t. t == tid && (entities.vruntime t == vruntime)) in
      elim task [
        | none ↦ some (none, record rq { tasks_timeline = timeline })
        | some t ↦
            if leb 1 rq.nr_queued && leb 1 rq.h_nr_queued
            then some (
              some t,
              record rq {
                tasks_timeline = timeline;
                nr_queued = rq.nr_queued - 1;
                h_nr_queued = rq.h_nr_queued - 1;
                load = rq.load - weight;
              },
            )
            else none
      ]

  unfoldable pub pick_next : CfsRq → Option ℕ
  pick_next rq = elim (Tree.first T rq.tasks_timeline) [ none ↦ none | some e ↦ some e.1 ]

  unfoldable pub pop_next : CfsRq → Entities → Option (ℕ × CfsRq)
  pop_next rq entities = elim (Tree.pop_first T rq.tasks_timeline) [
    | none ↦ none
    | some (task, timeline) ↦
        let current_vruntime : ℕ = entities.vruntime task in
        let candidate : ℕ = min (leftmost_or timeline current_vruntime) current_vruntime in
        some (
          task,
          record rq {
            tasks_timeline = timeline;
            nr_queued = rq.nr_queued - 1;
            h_nr_queued = rq.h_nr_queued - 1;
            load = rq.load - entities.load_weight task;
            min_vruntime = max rq.min_vruntime candidate;
          },
        )
  ]

  unfoldable pub remove_task : CfsRq → Entities → ℕ → Option ℕ × CfsRq
  remove_task rq entities tid =
      let (task, timeline) = Tree.remove_where T rq.tasks_timeline (λ t. t == tid) in
      elim task [
        | none ↦ (none, record rq { tasks_timeline = timeline })
        | some t ↦ (
          some t,
          record rq {
            tasks_timeline = timeline;
            nr_queued = rq.nr_queued - 1;
            h_nr_queued = rq.h_nr_queued - 1;
            load = rq.load - entities.load_weight t;
          },
        )
      ]

  unfoldable pub advance_min_vruntime : CfsRq → CfsRq
  advance_min_vruntime rq = elim (Tree.first T rq.tasks_timeline) [
    | none ↦ rq
    | some e ↦ record rq { min_vruntime = max rq.min_vruntime e.0.vruntime }
  ]
