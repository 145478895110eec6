-- ===== src/Sched/Sleep/Expiry.antt =====
-- `pop_all_expired` of os/src/process/scheduler/nanosleep.rs takes out just the tasks that are due.
use os.Base.{
  ℕ, ◌≤◌, ◌<◌, ◌≡◌, refl, ◌∙◌, ap, Option, none, some, List, [], ◌∷◌, ◌==◌, leb, if◌then◌else◌,
  arith, if_cases, Bool-cases, inl, inr,
}
use os.Sched.Sleep.{SleepTask, SleepEntry, SleepQueue, pop_all_from, pop_all_expired}
use os.Sched.Sleep.Deadlines.{
  NotBefore, ByDeadline, MadeBefore, tid_count, IsValid, up_to, later_than, up_to-later,
  later_than-later, deadline_of, deadline_of-none,
}

abbrev pub tasks_of : List SleepEntry → List SleepTask
tasks_of [] = []
tasks_of (x ∷ xs) = x.task ∷ tasks_of xs

pop_all_from_lem :
    (now : ℕ) (xs : List SleepEntry)
    → ByDeadline xs
    → pop_all_from now xs ≡ (tasks_of (up_to now xs), later_than now xs)
unfolding pop_all_from up_to later_than
pop_all_from_lem now [] s = refl
pop_all_from_lem now (x ∷ xs) (n, s) = elim (Bool-cases (leb x.deadline_ns now)) [
  | inl e ↦ rw (e, pop_all_from_lem now xs s) refl
  | inr e ↦
      let late : now < x.deadline_ns = ground arith in
      rw (e, up_to-later now x.deadline_ns xs n late, later_than-later now x.deadline_ns xs n late)
        refl
]

-- What is left of a valid queue.
NotBefore-later_than :
    (d now : ℕ) (xs : List SleepEntry) → NotBefore d xs → NotBefore d (later_than now xs)
unfolding later_than
NotBefore-later_than d now [] h = tt
NotBefore-later_than d now (x ∷ xs) (h, hs) =
    let rest = NotBefore-later_than d now xs hs in
    if_cases (NotBefore d) (leb x.deadline_ns now) (λ _. rest) (λ _. (h, rest))

ByDeadline-later_than :
    (now : ℕ) (xs : List SleepEntry) → ByDeadline xs → ByDeadline (later_than now xs)
unfolding later_than
ByDeadline-later_than now [] h = tt
ByDeadline-later_than now (x ∷ xs) (h, hs) =
    let rest = ByDeadline-later_than now xs hs in
    if_cases ByDeadline (leb x.deadline_ns now) (λ _. rest)
      (λ _. (NotBefore-later_than x.deadline_ns now xs h, rest))

MadeBefore-later_than :
    (n now : ℕ) (xs : List SleepEntry) → MadeBefore n xs → MadeBefore n (later_than now xs)
unfolding later_than
MadeBefore-later_than n now [] h = tt
MadeBefore-later_than n now (x ∷ xs) (h, hs) =
    let rest = MadeBefore-later_than n now xs hs in
    if_cases (MadeBefore n) (leb x.deadline_ns now) (λ _. rest) (λ _. (h, rest))

tid_count-later_than :
    (tid now : ℕ) (xs : List SleepEntry) → tid_count tid (later_than now xs) ≤ tid_count tid xs
unfolding tid_count later_than
tid_count-later_than tid now [] = omega arith
tid_count-later_than tid now (x ∷ xs) = ground (arith, tid_count-later_than tid now xs)

-- The deadline of a thread that still sleeps.
abbrev pub unless_due : ℕ → Option ℕ → Option ℕ
unless_due now none = none
unless_due now (some d) = if leb d now then none else some d

deadline_of-later_than :
    (tid now : ℕ) (xs : List SleepEntry)
    → tid_count tid xs ≤ 1
    → deadline_of tid (later_than now xs) ≡ unless_due now (deadline_of tid xs)
unfolding deadline_of later_than tid_count
deadline_of-later_than tid now [] h = refl
deadline_of-later_than tid now (x ∷ xs) h =
    let rest = deadline_of-later_than tid now xs (omega (arith, h)) in
    elim (Bool-cases (x.task.tid == tid)) [
      | inl e ↦
          let none_left : tid_count tid xs ≡ 0 = ground (arith, h, e) in
          let gone = deadline_of-none tid xs none_left in
          let left : deadline_of tid (later_than now xs) ≡ none = rest ∙ ap (unless_due now) gone in
          elim (Bool-cases (leb x.deadline_ns now)) [
            | inl f ↦ rw (f, e, left, f) refl
            | inr f ↦ rw (f, e, f) refl
          ]
      | inr e ↦ elim (Bool-cases (leb x.deadline_ns now)) [
        | inl f ↦ rw (f, e) rest
        | inr f ↦ rw (f, e) rest
      ]
    ]

-- What `pop_all_expired` returns and leaves.
pub record Expired (q : SleepQueue) (now : ℕ) (tasks : List SleepTask) (q' : SleepQueue)
    : Type 0 where
  pub valid : IsValid q'
  pub due : tasks ≡ tasks_of (up_to now q.inner)
  pub left : q'.inner ≡ later_than now q.inner
  pub deadlines : (tid : ℕ) → deadline_of tid q'.inner ≡ unless_due now (deadline_of tid q.inner)

-- `pop_all_expired` of a valid queue takes out the tasks whose deadline is not after `now`, all of them
-- and no other, in the order of the queue. The others keep their entries and deadlines, and the queue
-- stays valid.
pub pop_all_expired-Expired :
    (q : SleepQueue) (now : ℕ)
    → IsValid q
    → Expired q now (pop_all_expired q now).0 (pop_all_expired q now).1
unfolding pop_all_expired
pop_all_expired-Expired q now v = rw (pop_all_from_lem now q.inner v.sorted) (record {
  valid = record {
    sorted = ByDeadline-later_than now q.inner v.sorted;
    made = MadeBefore-later_than q.enqueue_order now q.inner v.made;
    once = λ tid. omega (arith, tid_count-later_than tid now q.inner, v.once tid);
  };
  due = refl;
  left = refl;
  deadlines = λ tid. deadline_of-later_than tid now q.inner (v.once tid);
})
