-- ===== src/Sched/Rt/Remove.antt =====
-- `remove_task` and `rotate_rr` of os/src/process/scheduler/rt_rq.rs.
use os.Base.{
  ℕ, zero, suc, ◌+◌, ◌≤◌, ◌<◌, ◌≡◌, refl, Option, none, some, List, [], ◌∷◌, ◌++◌, arith, ltb,
  length, set, get_or, dec_lt, inl, inr, length-append, Bool-cases, ◌&&◌, ℕ_discrete,
}
use os.Sched.Task.{Task, Absent, Split, Located, position, position-Located}
use os.Sched.Rt.{
  RtRq, queue_at, is_empty, max_rt_prio, remove_from, remove_scan, remove_task, rotate_rr,
  rotate_left,
}
use os.Sched.Rt.Valid.{
  IsValid, rr_count, total-set, rr_total-set, rr_count-append, kept-IsArray, queue-put_back,
}
use os.Sched.Rt.Pick.{served, queue_at-outside}
use os.Sched.Rt.Ops.{counted_out-IsValid}

-- The outcome of a search through the queues from `lo` up to `hi`.
abbrev pub Removes : RtRq → ℕ → ℕ → ℕ → Option Task × RtRq → Type 0
Removes r tid lo hi (none, r') =
    (r' ≡ r) × ((p : ℕ) → lo ≤ p → p < hi → Absent (queue_at r.active p) tid)
Removes r tid lo hi (some t, r') =
    (t.tid ≡ tid)
    × IsValid r'
    × (p : ℕ) × (before : List Task) × (after : List Task) × (queue_at r.active p
        ≡ before ++ (t ∷ after))
    × Absent before tid
    × (r'.active.queue ≡ set r.active.queue p (before ++ after))

remove_from-Removes :
    (r : RtRq) (tid p i lo hi : ℕ)
    → IsValid r
    → p < max_rt_prio
    → Split (queue_at r.active p) tid i
    → Removes r tid lo hi (remove_from r p i)
unfolding remove_from
remove_from-Removes r tid p i lo hi v h s =
    rw (s.at, remove_from, s.rest)
      (
        s.matches,
        counted_out-IsValid r p s.before s.task s.after v h s.whole,
        p,
        s.before,
        s.after,
        s.whole,
        s.first,
        queue-put_back r.active p (s.before ++ s.after) v.array h,
      )

Removes-later :
    (r : RtRq) (tid lo hi : ℕ) (x : Option Task × RtRq)
    → Absent (queue_at r.active lo) tid
    → Removes r tid (lo + 1) hi x
    → Removes r tid lo hi x
Removes-later r tid lo hi (none, r') a (same, absent) = (same, all)
  where
    all : (p : ℕ) → lo ≤ p → p < hi → Absent (queue_at r.active p) tid
    all p h k = elim (ℕ_discrete lo p) [ yes e ↦ rw (← e) a | no ne ↦ absent p (omega arith) k ]
Removes-later r tid lo hi (some t, r') a found = found

remove_scan-Removes :
    (r : RtRq) (tid lo n hi : ℕ)
    → IsValid r
    → lo + n ≡ hi
    → hi ≤ max_rt_prio
    → Removes r tid lo hi (remove_scan r tid lo n)
unfolding remove_scan
remove_scan-Removes r tid lo zero hi v e h = (refl, λ p k l. absurd (omega arith))
remove_scan-Removes r tid lo (suc n) hi v e h =
    at (position (queue_at r.active lo) tid) refl (position-Located (queue_at r.active lo) tid)
      (remove_scan-Removes r tid (lo + 1) n hi v (omega arith) h)
  where
    at :
        (o : Option ℕ)
        → position (queue_at r.active lo) tid ≡ o
        → Located (queue_at r.active lo) tid o
        → Removes r tid (lo + 1) hi (remove_scan r tid (lo + 1) n)
        → Removes r tid lo hi (remove_scan r tid lo (suc n))
    at none eq absent rest =
        rw (eq, remove_scan) (Removes-later r tid lo hi (remove_scan r tid (lo + 1) n) absent rest)
    at (some i) eq split rest =
        rw (eq, remove_scan) (remove_from-Removes r tid lo i lo hi v (omega arith) split)

Absent-append :
    (xs ys : List Task) (tid : ℕ) → Absent xs tid → Absent ys tid → Absent (xs ++ ys) tid
Absent-append [] ys tid h k = k
Absent-append (x ∷ xs) ys tid h k = (h.0, Absent-append xs ys tid h.1 k)

Absent-served :
    (qs : List (List Task)) (tid : ℕ)
    → ((p : ℕ) → Absent (get_or qs p []) tid)
    → Absent (served qs) tid
unfolding served
Absent-served [] tid h = tt
Absent-served (q ∷ qs) tid h =
    Absent-append q (served qs) tid (h 0) (Absent-served qs tid (λ p. h (suc p)))

-- What `remove_task` may return: nothing, or the task with the state after it.
abbrev pub Removed : RtRq → ℕ → Option Task × RtRq → Type 0
Removed r tid (none, r') = (r' ≡ r) × Absent (served r.active.queue) tid
Removed r tid (some t, r') =
    (t.tid ≡ tid)
    × IsValid r'
    × (p : ℕ) × (before : List Task) × (after : List Task) × (queue_at r.active p
        ≡ before ++ (t ∷ after))
    × Absent before tid
    × (r'.active.queue ≡ set r.active.queue p (before ++ after))

Removes-Removed :
    (r : RtRq) (tid : ℕ) (x : Option Task × RtRq)
    → IsValid r
    → Removes r tid 0 max_rt_prio x
    → Removed r tid x
Removes-Removed r tid (none, r') v (same, absent) = (
  same,
  Absent-served r.active.queue tid (λ p. elim (dec_lt p max_rt_prio) [
    | yes h ↦ absent p (omega arith) h
    | no h ↦ rw (queue_at-outside r.active p v.array (omega arith)) tt
  ]),
)
Removes-Removed r tid (some t, r') v found = found

-- `remove_task` takes a task with the thread id out of its queue, the first there with that id, and
-- keeps the run queue valid; it fails, without a change, only when no queue has such a task.
pub remove_task_lem : (r : RtRq) (tid : ℕ) → IsValid r → Removed r tid (remove_task r tid)
unfolding remove_task
remove_task_lem r tid v =
    Removes-Removed r tid (remove_task r tid) v
      (remove_scan-Removes r tid 0 100 100 v refl (omega arith))

length-rotate_left : (q : List Task) → length (rotate_left q) ≡ length q
length-rotate_left [] = refl
length-rotate_left (t ∷ ts) = omega (arith, length-append ts (t ∷ []))

rr_count-rotate_left : (q : List Task) → rr_count (rotate_left q) ≡ rr_count q
unfolding rr_count
rr_count-rotate_left [] = refl
rr_count-rotate_left (t ∷ ts) = omega (arith, rr_count-append ts (t ∷ []))

is_empty-rotate_left : (q : List Task) → is_empty (rotate_left q) ≡ is_empty q
is_empty-rotate_left [] = refl
is_empty-rotate_left (t ∷ []) = refl
is_empty-rotate_left (t ∷ u ∷ ts) = refl

-- `rotate_rr` keeps the run queue valid.
pub rotate_rr-IsValid : (r : RtRq) (p : ℕ) → IsValid r → IsValid (rotate_rr r p)
unfolding rotate_rr
rotate_rr-IsValid r p v =
    elim (Bool-cases (ltb p max_rt_prio && ltb 1 (length (queue_at r.active p)))) [
      | inl e ↦ rw (e, rotate_rr) (rotated (ground arith))
      | inr e ↦ rw (e, rotate_rr) v
    ]
  where
    q : List Task
    q = queue_at r.active p

    rotated :
        p < max_rt_prio
        → IsValid
            (record r { active = record r.active { queue = set r.active.queue p (rotate_left q) } })
    rotated h = record {
      array = kept-IsArray r.active p (rotate_left q) v.array h (is_empty-rotate_left q);
      running = omega (
        arith,
        v.running,
        total-set r.active.queue p (rotate_left q) (omega (arith, v.array.queues)),
        length-rotate_left q,
      );
      rr_running = omega (
        arith,
        v.rr_running,
        rr_total-set r.active.queue p (rotate_left q) (omega (arith, v.array.queues)),
        rr_count-rotate_left q,
      );
    }
