-- ===== src/Sched/Sleep/Deadlines.antt =====
-- The order of the sleep queue of os/src/process/scheduler/nanosleep.rs, and what `push` does to it.
use os.Base.{
  ℕ, ◌+◌, ◌≤◌, ◌<◌, ◌≡◌, refl, ap, true, false, Option, none, some, List, [], ◌∷◌, ◌++◌, leb, ◌==◌,
  if◌then◌else◌, arith, if_cases, Bool-cases, inl, inr,
}
use os.Sched.Sleep.{SleepEntry, SleepQueue, greater, heap_push, retain_other}

-- No entry has an earlier deadline than `d`.
abbrev pub NotBefore : ℕ → List SleepEntry → Type 0
NotBefore d [] = Unit
NotBefore d (x ∷ xs) = (d ≤ x.deadline_ns) × NotBefore d xs

abbrev pub ByDeadline : List SleepEntry → Type 0
ByDeadline [] = Unit
ByDeadline (x ∷ xs) = NotBefore x.deadline_ns xs × ByDeadline xs

-- All entries were made before the counter stood at `n`.
abbrev pub MadeBefore : ℕ → List SleepEntry → Type 0
MadeBefore n [] = Unit
MadeBefore n (x ∷ xs) = (x.order < n) × MadeBefore n xs

unfoldable pub tid_count : ℕ → List SleepEntry → ℕ
tid_count tid [] = 0
tid_count tid (x ∷ xs) = (if x.task.tid == tid then 1 else 0) + tid_count tid xs

pub record IsValid (q : SleepQueue) : Type 0 where
  pub sorted : ByDeadline q.inner
  pub made : MadeBefore q.enqueue_order q.inner
  pub once : (tid : ℕ) → tid_count tid q.inner ≤ 1

-- The entries of a queue with deadlines up to `d`, and those with later ones.
unfoldable pub up_to : ℕ → List SleepEntry → List SleepEntry
up_to d [] = []
up_to d (x ∷ xs) = let rest = up_to d xs in if leb x.deadline_ns d then x ∷ rest else rest

unfoldable pub later_than : ℕ → List SleepEntry → List SleepEntry
later_than d [] = []
later_than d (x ∷ xs) = let rest = later_than d xs in if leb x.deadline_ns d then rest else x ∷ rest

pub up_to-later : (d e : ℕ) (xs : List SleepEntry) → NotBefore e xs → d < e → up_to d xs ≡ []
unfolding up_to
up_to-later d e [] n h = refl
up_to-later d e (x ∷ xs) (n, ns) h = ground (arith, up_to-later d e xs ns h)

pub later_than-later :
    (d e : ℕ) (xs : List SleepEntry) → NotBefore e xs → d < e → later_than d xs ≡ xs
unfolding later_than
later_than-later d e [] n h = refl
later_than-later d e (x ∷ xs) (n, ns) h =
    let early : leb x.deadline_ns d ≡ false = ground arith in
    rw early (ap (λ r. x ∷ r) (later_than-later d e xs ns h))

pub heap_push_lem :
    (xs : List SleepEntry) (e : SleepEntry)
    → ByDeadline xs
    → MadeBefore e.order xs
    → heap_push xs e ≡ up_to e.deadline_ns xs ++ (e ∷ later_than e.deadline_ns xs)
unfolding heap_push up_to later_than greater
heap_push_lem [] e s m = refl
heap_push_lem (x ∷ xs) e (n, s) (m, ms) = elim (Bool-cases (leb x.deadline_ns e.deadline_ns)) [
  | inl f ↦
      let behind : greater e x ≡ false = ground arith in
      rw (behind, f) (ap (λ r. x ∷ r) (heap_push_lem xs e s ms))
  | inr f ↦
      let before : greater e x ≡ true = ground arith in
      let clear = up_to-later e.deadline_ns x.deadline_ns xs n (ground arith) in
      let all = later_than-later e.deadline_ns x.deadline_ns xs n (ground arith) in
      rw (before, f, clear, all) refl
]

-- The deadline at which a thread is to wake.
unfoldable pub deadline_of : ℕ → List SleepEntry → Option ℕ
deadline_of tid [] = none
deadline_of tid (x ∷ xs) =
    let rest = deadline_of tid xs in if x.task.tid == tid then some x.deadline_ns else rest

pub deadline_of-none :
    (tid : ℕ) (xs : List SleepEntry) → tid_count tid xs ≡ 0 → deadline_of tid xs ≡ none
unfolding deadline_of tid_count
deadline_of-none tid [] h = refl
deadline_of-none tid (x ∷ xs) h = ground (arith, h, deadline_of-none tid xs)

-- `retain_other` takes away what one thread has, and keeps the order.
pub tid_count-retain_other :
    (tid t : ℕ) (xs : List SleepEntry)
    → tid_count tid (retain_other xs t) ≡ (if t == tid then 0 else tid_count tid xs)
unfolding tid_count retain_other
tid_count-retain_other tid t [] = ground arith
tid_count-retain_other tid t (x ∷ xs) = ground (arith, tid_count-retain_other tid t xs)

pub deadline_of-retain_other :
    (tid t : ℕ) (xs : List SleepEntry)
    → deadline_of tid (retain_other xs t) ≡ (if t == tid then none else deadline_of tid xs)
unfolding deadline_of retain_other
deadline_of-retain_other tid t [] = ground arith
deadline_of-retain_other tid t (x ∷ xs) = ground (arith, deadline_of-retain_other tid t xs)

pub NotBefore-retain_other :
    (d t : ℕ) (xs : List SleepEntry) → NotBefore d xs → NotBefore d (retain_other xs t)
unfolding retain_other
NotBefore-retain_other d t [] h = tt
NotBefore-retain_other d t (x ∷ xs) (h, hs) =
    let rest = NotBefore-retain_other d t xs hs in
    if_cases (NotBefore d) (x.task.tid == t) (λ _. rest) (λ _. (h, rest))

pub ByDeadline-retain_other :
    (t : ℕ) (xs : List SleepEntry) → ByDeadline xs → ByDeadline (retain_other xs t)
unfolding retain_other
ByDeadline-retain_other t [] h = tt
ByDeadline-retain_other t (x ∷ xs) (h, hs) =
    let rest = ByDeadline-retain_other t xs hs in
    if_cases ByDeadline (x.task.tid == t) (λ _. rest)
      (λ _. (NotBefore-retain_other x.deadline_ns t xs h, rest))

pub MadeBefore-retain_other :
    (n t : ℕ) (xs : List SleepEntry) → MadeBefore n xs → MadeBefore n (retain_other xs t)
unfolding retain_other
MadeBefore-retain_other n t [] h = tt
MadeBefore-retain_other n t (x ∷ xs) (h, hs) =
    let rest = MadeBefore-retain_other n t xs hs in
    if_cases (MadeBefore n) (x.task.tid == t) (λ _. rest) (λ _. (h, rest))

-- `heap_push` adds one entry, and keeps the order.
pub tid_count-heap_push :
    (tid : ℕ) (xs : List SleepEntry) (e : SleepEntry)
    → tid_count tid (heap_push xs e) ≡ (if e.task.tid == tid then 1 else 0) + tid_count tid xs
unfolding tid_count heap_push
tid_count-heap_push tid [] e = refl
tid_count-heap_push tid (x ∷ xs) e =
    if_cases
      (λ r.
        tid_count tid r
        ≡ (if e.task.tid == tid then 1 else 0)
          + ((if x.task.tid == tid then 1 else 0) + tid_count tid xs))
      (greater e x) (λ _. refl) (λ _. omega (arith, tid_count-heap_push tid xs e))

pub deadline_of-heap_push :
    (tid : ℕ) (xs : List SleepEntry) (e : SleepEntry)
    → tid_count e.task.tid xs ≡ 0
    → deadline_of tid (heap_push xs e)
      ≡ (if e.task.tid == tid then some e.deadline_ns else deadline_of tid xs)
unfolding deadline_of heap_push tid_count
deadline_of-heap_push tid [] e h = refl
deadline_of-heap_push tid (x ∷ xs) e h =
    let clear : tid_count e.task.tid xs ≡ 0 = omega (arith, h) in
    let other : (x.task.tid == e.task.tid) ≡ false = ground (arith, h) in
    if_cases
      (λ r.
        deadline_of tid r
        ≡ (if e.task.tid == tid then some e.deadline_ns else deadline_of tid (x ∷ xs)))
      (greater e x) (λ _. refl) (λ _. ground (arith, other, deadline_of-heap_push tid xs e clear))

NotBefore-heap_push :
    (d : ℕ) (xs : List SleepEntry) (e : SleepEntry)
    → NotBefore d xs
    → d ≤ e.deadline_ns
    → NotBefore d (heap_push xs e)
unfolding heap_push
NotBefore-heap_push d [] e h k = (k, tt)
NotBefore-heap_push d (x ∷ xs) e (h, hs) k =
    if_cases (NotBefore d) (greater e x) (λ _. (k, (h, hs)))
      (λ _. (h, NotBefore-heap_push d xs e hs k))

NotBefore-weaken : (d d' : ℕ) (xs : List SleepEntry) → NotBefore d xs → d' ≤ d → NotBefore d' xs
NotBefore-weaken d d' [] h k = tt
NotBefore-weaken d d' (x ∷ xs) (h, hs) k = (omega arith, NotBefore-weaken d d' xs hs k)

pub ByDeadline-heap_push :
    (xs : List SleepEntry) (e : SleepEntry) → ByDeadline xs → ByDeadline (heap_push xs e)
unfolding heap_push greater
ByDeadline-heap_push [] e h = (tt, tt)
ByDeadline-heap_push (x ∷ xs) e (h, hs) =
    if_cases ByDeadline (greater e x)
      (λ g.
        let le : e.deadline_ns ≤ x.deadline_ns = ground arith in
        ((le, NotBefore-weaken x.deadline_ns e.deadline_ns xs h le), (h, hs)))
      (λ g. (NotBefore-heap_push x.deadline_ns xs e h (ground arith), ByDeadline-heap_push xs e hs))

pub MadeBefore-heap_push :
    (n n' : ℕ) (xs : List SleepEntry) (e : SleepEntry)
    → MadeBefore n xs
    → n ≤ n'
    → e.order < n'
    → MadeBefore n' (heap_push xs e)
unfolding heap_push
MadeBefore-heap_push n n' [] e h k l = (l, tt)
MadeBefore-heap_push n n' (x ∷ xs) e (h, hs) k l =
    if_cases (MadeBefore n') (greater e x) (λ _. (l, (omega arith, MadeBefore-weaken n n' xs hs k)))
      (λ _. (omega arith, MadeBefore-heap_push n n' xs e hs k l))
  where
    MadeBefore-weaken :
        (n n' : ℕ) (xs : List SleepEntry) → MadeBefore n xs → n ≤ n' → MadeBefore n' xs
    MadeBefore-weaken n n' [] h k = tt
    MadeBefore-weaken n n' (x ∷ xs) (h, hs) k = (omega arith, MadeBefore-weaken n n' xs hs k)
