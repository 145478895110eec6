-- ===== src/Sched/Cfs/Leave.antt =====
-- Tasks that leave the fair queue of os/src/process/scheduler/cfs_rq.rs by their thread id.
use os.Base.{
  ℕ, suc, ◌-◌, ◌≡◌, refl, ap, sym, Bool, true, Option, none, some, ◌∷◌, length, length-append,
  arith, ◌==◌, ◌&&◌, leb, option_split, Option-cases, inl, inr,
}
use mathlib.Core.Path.{subst}
use os.Sched.Tree.{Tree, RemovedWhere}
use os.Sched.Tree.Entries.{Sorted, Sorted-middle}
use os.Sched.Cfs.{CfsKey, key_lt, Entities, CfsRq, dequeue, remove_task}
use os.Sched.Cfs.Valid.{AllAbove, AllAbove-middle, IsFair}

module _ {T : Tree CfsKey ℕ key_lt} where
  -- The queue after `remove_where` took a task out.
  abbrev Shorter : CfsRq T → Tree.Root T → Type 0
  Shorter rq timeline =
      Sorted key_lt (Tree.entries T timeline)
      × AllAbove rq.min_vruntime (Tree.entries T timeline)
      × (length (Tree.entries T rq.tasks_timeline) ≡ suc (length (Tree.entries T timeline)))

  removed-Shorter :
      (rq : CfsRq T) (timeline : Tree.Root T) (test : ℕ → Bool) (task : ℕ)
      → IsFair rq
      → RemovedWhere test (Tree.entries T rq.tasks_timeline) (some task) (Tree.entries T timeline)
      → Shorter rq timeline
  removed-Shorter rq timeline test task (s, a, n, h) (key, before, after, _, e, f) = (
    subst (Sorted key_lt) (sym f)
        (Sorted-middle key_lt before (key, task) after (subst (Sorted key_lt) e s)),
    subst (AllAbove rq.min_vruntime) (sym f) (
        AllAbove-middle rq.min_vruntime before (key, task) after
          (subst (AllAbove rq.min_vruntime) e a)),
    omega (
      arith,
      ap length e,
      ap length f,
      length-append before ((key, task) ∷ after),
      length-append before after,
    ),
  )

  -- A task with the thread id and the vruntime leaves.
  pub dequeue-IsFair :
      (rq : CfsRq T) (entities : Entities) (tid vruntime weight : ℕ)
      → IsFair rq
      → (task : Option ℕ) × (rq' : CfsRq T) × (dequeue T rq entities tid vruntime weight
          ≡ some (task, rq'))
        × IsFair rq'
        × RemovedWhere
            (λ t. t == tid && (entities.vruntime t == vruntime))
            (Tree.entries T rq.tasks_timeline)
            task
            (Tree.entries T rq'.tasks_timeline)
  unfolding dequeue
  dequeue-IsFair rq entities tid vruntime weight (s, a, n, h) =
      elim (Option-cases (Tree.remove_where T rq.tasks_timeline test).0) [
        | inl e ↦
            let (none_has, same) =
              subst
                (λ o.
                  RemovedWhere test (Tree.entries T rq.tasks_timeline) o (Tree.entries T timeline))
                e (Tree.remove_where_lem T rq.tasks_timeline test) in
            (
              none,
              record rq { tasks_timeline = timeline },
              rw (e, dequeue) refl,
              rw same (s, a, n, h),
              (none_has, same),
            )
        | inr (task, e) ↦
            let gone =
              subst
                (λ o.
                  RemovedWhere test (Tree.entries T rq.tasks_timeline) o (Tree.entries T timeline))
                e (Tree.remove_where_lem T rq.tasks_timeline test) in
            let (s', a', shorter) = removed-Shorter rq timeline test task (s, a, n, h) gone in
            let one : leb 1 rq.nr_queued ≡ true = ground (arith, n, shorter) in
            let one_too : leb 1 rq.h_nr_queued ≡ true = ground (arith, h, shorter) in
            (
              some task,
              record rq {
                tasks_timeline = timeline;
                nr_queued = rq.nr_queued - 1;
                h_nr_queued = rq.h_nr_queued - 1;
                load = rq.load - weight;
              },
              rw (e, one, one_too, dequeue) refl,
              (s', a', omega (arith, n, shorter), omega (arith, h, shorter)),
              gone,
            )
      ]
    where
      test : ℕ → Bool
      test t = t == tid && (entities.vruntime t == vruntime)

      timeline : Tree.Root T
      timeline = (Tree.remove_where T rq.tasks_timeline test).1

  -- A task with the thread id leaves.
  pub remove_task-IsFair :
      (rq : CfsRq T) (entities : Entities) (tid : ℕ)
      → IsFair rq
      → IsFair (remove_task T rq entities tid).1
        × RemovedWhere
            (λ t. t == tid)
            (Tree.entries T rq.tasks_timeline)
            (remove_task T rq entities tid).0
            (Tree.entries T (remove_task T rq entities tid).1.tasks_timeline)
  unfolding remove_task
  remove_task-IsFair rq entities tid (s, a, n, h) =
      option_split P (Tree.remove_where T rq.tasks_timeline test).0
        (λ e.
          let gone =
            subst
              (λ o.
                RemovedWhere test (Tree.entries T rq.tasks_timeline) o (Tree.entries T timeline))
              e (Tree.remove_where_lem T rq.tasks_timeline test) in
          (rw gone.1 (s, a, n, h), gone))
        (λ task e.
          let gone =
            subst
              (λ o.
                RemovedWhere test (Tree.entries T rq.tasks_timeline) o (Tree.entries T timeline))
              e (Tree.remove_where_lem T rq.tasks_timeline test) in
          let (s', a', shorter) = removed-Shorter rq timeline test task (s, a, n, h) gone in
          ((s', a', omega (arith, n, shorter), omega (arith, h, shorter)), gone))
    where
      test : ℕ → Bool
      test t = t == tid

      timeline : Tree.Root T
      timeline = (Tree.remove_where T rq.tasks_timeline test).1

      P : Option ℕ × CfsRq T → Type 0
      P r =
          IsFair r.1
          × RemovedWhere test (Tree.entries T rq.tasks_timeline) r.0
              (Tree.entries T r.1.tasks_timeline)
