-- ===== src/Sched/Deadline.antt =====
-- os/src/process/scheduler/deadline_rq.rs: the queue of deadline tasks, over the interface of the red-black
-- tree. A task is its thread id. `running_bw`, `this_bw` and `earliest_dl_curr` are never changed
-- after `new`, and left out.
pub mod Valid
mod Examples
use os.Base.{
  ℕ, ◌+◌, ◌-◌, ◌^◌, Bool, true, false, not, Option, none, some, ltb, leb, ◌==◌, if◌then◌else◌,
}
use os.Sched.Tree.{Tree}

pub record DeadlineKey : Type 0 where
  pub deadline : ℕ
  pub tid : ℕ

-- The derived order: by deadline, then by thread id.
abbrev pub key_lt : DeadlineKey → DeadlineKey → Bool
key_lt a b = if a.deadline == b.deadline then ltb a.tid b.tid else ltb a.deadline b.deadline

-- `u64::MAX`
abbrev pub never : ℕ
never = 2 ^ 64 - 1

module _ (T : Tree DeadlineKey ℕ key_lt) where
  pub record DeadlineRq : Type 0 where
    pub root : Tree.Root T
    pub pushable_dl_tasks_root : Tree.Root T
    pub dl_nr_running : ℕ
    pub earliest_dl_next : ℕ
    pub overloaded : Bool

  abbrev pub new : DeadlineRq
  new = record {
    root = Tree.new T;
    pushable_dl_tasks_root = Tree.new T;
    dl_nr_running = 0;
    earliest_dl_next = never;
    overloaded = false;
  }

  unfoldable pub enqueue : DeadlineRq → ℕ → ℕ → DeadlineRq
  enqueue rq task absolute_deadline = record rq {
    root = Tree.insert T rq.root (record { deadline = absolute_deadline; tid = task }) task;
    dl_nr_running = rq.dl_nr_running + 1;
  }

  -- `none` is the panic of a count that passes 0.
  unfoldable pub dequeue : DeadlineRq → ℕ → ℕ → Option (Option ℕ × DeadlineRq)
  dequeue rq tid absolute_deadline =
      let (task, root) =
        Tree.remove T rq.root (record { deadline = absolute_deadline; tid = tid }) in
      elim task [
        | none ↦ some (none, record rq { root = root })
        | some t ↦
            if leb 1 rq.dl_nr_running
            then some (some t, record rq { root = root; dl_nr_running = rq.dl_nr_running - 1 })
            else none
      ]

  unfoldable pub pick_next : DeadlineRq → Option ℕ
  pick_next rq = elim (Tree.first T rq.root) [ none ↦ none | some e ↦ some e.1 ]

  unfoldable pub pop_next : DeadlineRq → Option (ℕ × DeadlineRq)
  pop_next rq = elim (Tree.pop_first T rq.root) [
    | none ↦ none
    | some (task, root) ↦ some (
      task,
      record rq {
        root = root;
        dl_nr_running = rq.dl_nr_running - 1;
        earliest_dl_next = elim (Tree.first T root) [ none ↦ never | some e ↦ e.0.deadline ];
      },
    )
  ]

  unfoldable pub remove_task : DeadlineRq → ℕ → Option ℕ × DeadlineRq
  remove_task rq tid =
      let (task, root) = Tree.remove_where T rq.root (λ t. t == tid) in
      elim task [
        | none ↦ (none, record rq { root = root })
        | some t ↦ (some t, record rq { root = root; dl_nr_running = rq.dl_nr_running - 1 })
      ]

  unfoldable pub enqueue_pushable : DeadlineRq → ℕ → ℕ → DeadlineRq
  enqueue_pushable rq task absolute_deadline =
      let root : Tree.Root T =
        Tree.insert T rq.pushable_dl_tasks_root
          (record { deadline = absolute_deadline; tid = task }) task in
      record rq { pushable_dl_tasks_root = root; overloaded = not (Tree.is_empty T root) }

  unfoldable pub dequeue_pushable : DeadlineRq → ℕ → ℕ → Option ℕ × DeadlineRq
  dequeue_pushable rq tid absolute_deadline =
      let (task, root) =
        Tree.remove T rq.pushable_dl_tasks_root
          (record { deadline = absolute_deadline; tid = tid }) in
      (task, record rq { pushable_dl_tasks_root = root; overloaded = not (Tree.is_empty T root) })
