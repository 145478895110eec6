-- ===== src/Sched/Task.antt =====
-- What the run queues of os/src/process/scheduler read of a task (`Arc<TaskControlBlock>`). The
-- queues hold the task by its identity and read these fields when they use it; the model carries
-- them along, so a change of policy while a task is queued is not modelled.
use os.Base.{
  ◌≡◌, ◌≢◌, refl, ap, ◌++◌, arith, length, get_elem?, remove_at, Bool-cases, inl, inr, ℕ, ◌+◌, List,
  [], ◌∷◌, Option, none, some, ◌==◌, if◌then◌else◌,
}
use mathlib.Core.Option
use native.Mathlib.Numerals.{add-one}

pub record Task : Type 0 where
  pub tid : ℕ
  pub sched_policy : ℕ
  pub prio : ℕ

abbrev pub sched_other : ℕ
sched_other = 0

abbrev pub sched_fifo : ℕ
sched_fifo = 1

abbrev pub sched_rr : ℕ
sched_rr = 2

-- `iter().position(|task| task.gettid() == tid)`
unfoldable pub position : List Task → ℕ → Option ℕ
position [] tid = none
position (t ∷ ts) tid = if t.tid == tid then some 0 else Option.map (λ i. i + 1) (position ts tid)

-- No task of the queue has the thread id.
abbrev pub Absent : List Task → ℕ → Type 0
Absent [] tid = Unit {0}
Absent (t ∷ ts) tid = (t.tid ≢ tid) × Absent ts tid

-- The first task with the thread id stands at `i`, between `before` and `after`.
pub record Split (q : List Task) (tid i : ℕ) : Type 0 where
  pub before : List Task
  pub task : Task
  pub after : List Task
  pub whole : q ≡ before ++ (task ∷ after)
  pub at : get_elem? q i ≡ some task
  pub rest : remove_at q i ≡ before ++ after
  pub matches : task.tid ≡ tid
  pub first : Absent before tid

abbrev pub Located : List Task → ℕ → Option ℕ → Type 0
Located q tid none = Absent q tid
Located q tid (some i) = Split q tid i

Located-cons :
    (t : Task) (ts : List Task) (tid : ℕ) (o : Option ℕ)
    → t.tid ≢ tid
    → Located ts tid o
    → Located (t ∷ ts) tid (Option.map (λ i. i + 1) o)
unfolding remove_at
Located-cons t ts tid none ne a = (ne, a)
Located-cons t ts tid (some i) ne s = rw add-one (record {
  before = t ∷ s.before;
  task = s.task;
  after = s.after;
  whole = ap (λ r. t ∷ r) s.whole;
  at = s.at;
  rest = ap (λ r. t ∷ r) s.rest;
  matches = s.matches;
  first = (ne, s.first);
})

-- `position` finds the first task with the thread id, and fails only when there is none.
pub position-Located : (q : List Task) (tid : ℕ) → Located q tid (position q tid)
unfolding position remove_at
position-Located [] tid = tt
position-Located (t ∷ ts) tid = elim (Bool-cases (t.tid == tid)) [
  | inl hit ↦
      rw (hit, position)
        (record {
          before = [];
          task = t;
          after = ts;
          whole = refl;
          at = refl;
          rest = refl;
          matches = ground arith;
          first = tt;
        })
  | inr miss ↦
      rw (miss, position)
        (Located-cons t ts tid (position ts tid) (ground arith) (position-Located ts tid))
]

pub position-middle :
    (before : List Task) (task : Task) (after : List Task) (tid : ℕ)
    → Absent before tid
    → task.tid ≡ tid
    → position (before ++ (task ∷ after)) tid ≡ some (length before)
unfolding position
position-middle [] task after tid a e = ground arith
position-middle (t ∷ before) task after tid a e =
    ground (arith, position-middle before task after tid a.1 e, add-one (length before))

pub position-Absent : (q : List Task) (tid : ℕ) → Absent q tid → position q tid ≡ none
unfolding position
position-Absent [] tid a = refl
position-Absent (t ∷ q) tid a = ground (arith, position-Absent q tid a.1)
