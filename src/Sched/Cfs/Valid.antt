-- ===== src/Sched/Cfs/Valid.antt =====
-- The invariant of the fair queue of os/src/process/scheduler/cfs_rq.rs, and that every operation keeps it.
use os.Base.{
  ℕ, suc, ◌-◌, ◌≤◌, ◌≡◌, refl, ap, sym, ◌∙◌, min, max, true, false, none, some, List, [], ◌∷◌, ◌++◌,
  length, arith, if_cases, option_split,
}
use mathlib.Core.Path.{subst}
use os.Sched.Tree.{Tree, insert_entry, first_entry}
use os.Sched.Tree.Entries.{NotLess, Sorted, length-insert_entry, Sorted-insert_entry}
use os.Sched.Cfs.{
  CfsKey, key_lt, Entities, CfsRq, leftmost_or, enqueue, pop_next, advance_min_vruntime,
}

key_lt_asym : (a b : CfsKey) → key_lt a b ≡ true → key_lt b a ≡ false
key_lt_asym a b h = ground arith

key_lt_trans : (a b c : CfsKey) → key_lt a b ≡ true → key_lt c b ≡ false → key_lt c a ≡ false
key_lt_trans a b c h k = ground arith

not_less_vruntime : (a b : CfsKey) → key_lt b a ≡ false → a.vruntime ≤ b.vruntime
not_less_vruntime a b h = ground arith

abbrev pub Entry : Type 0
Entry = CfsKey × ℕ

-- No entry has a vruntime below `m`.
abbrev pub AllAbove : ℕ → List Entry → Type 0
AllAbove m [] = Unit
AllAbove m (e ∷ es) = (m ≤ e.0.vruntime) × AllAbove m es

AllAbove-weaken : (m n : ℕ) (es : List Entry) → n ≤ m → AllAbove m es → AllAbove n es
AllAbove-weaken m n [] h a = tt
AllAbove-weaken m n (e ∷ es) h (a, as') = (omega (arith, h, a), AllAbove-weaken m n es h as')

AllAbove-max : (m n : ℕ) (es : List Entry) → AllAbove m es → AllAbove n es → AllAbove (max m n) es
AllAbove-max m n [] a b = tt
AllAbove-max m n (e ∷ es) (a, as') (b, bs) = (omega (arith, a, b), AllAbove-max m n es as' bs)

AllAbove-insert_entry :
    (m : ℕ) (k : CfsKey) (v : ℕ) (es : List Entry)
    → m ≤ k.vruntime
    → AllAbove m es
    → AllAbove m (insert_entry key_lt k v es)
unfolding insert_entry
AllAbove-insert_entry m k v [] h a = (h, tt)
AllAbove-insert_entry m k v (e ∷ es) h (a, as') =
    if_cases (AllAbove m) (key_lt k e.0) (λ _. (h, (a, as')))
      (λ _. (a, AllAbove-insert_entry m k v es h as'))

pub AllAbove-middle :
    (m : ℕ) (before : List Entry) (x : Entry) (after : List Entry)
    → AllAbove m (before ++ (x ∷ after))
    → AllAbove m (before ++ after)
AllAbove-middle m [] x after (_, a) = a
AllAbove-middle m (e ∷ before) x after (a, as') = (a, AllAbove-middle m before x after as')

pub AllAbove-NotLess : (k : CfsKey) (es : List Entry) → NotLess key_lt k es → AllAbove k.vruntime es
AllAbove-NotLess k [] n = tt
AllAbove-NotLess k (e ∷ es) (n, ns) = (not_less_vruntime k e.0 n, AllAbove-NotLess k es ns)

abbrev pub leftmost_of : List Entry → ℕ → ℕ
leftmost_of es x = elim (first_entry es) [ none ↦ x | some e ↦ e.0.vruntime ]

leftmost_of-AllAbove : (es : List Entry) (x : ℕ) → Sorted key_lt es → AllAbove (leftmost_of es x) es
leftmost_of-AllAbove [] x s = tt
leftmost_of-AllAbove (e ∷ es) x (n, s) = (omega arith, AllAbove-NotLess e.0 es n)

module _ (T : Tree CfsKey ℕ key_lt) where
  leftmost_or-AllAbove :
      (root : Tree.Root T) (x : ℕ)
      → Sorted key_lt (Tree.entries T root)
      → AllAbove (leftmost_or T root x) (Tree.entries T root)
  leftmost_or-AllAbove root x s =
      subst (λ o. AllAbove (elim o [ none ↦ x | some e ↦ e.0.vruntime ]) (Tree.entries T root))
        (sym (Tree.first_lem T root)) (leftmost_of-AllAbove (Tree.entries T root) x s)

module _ {T : Tree CfsKey ℕ key_lt} where
  -- The timeline is in order, no entry is behind `min_vruntime`, and both counts are right.
  abbrev pub IsFair : CfsRq T → Type 0
  IsFair rq =
      Sorted key_lt (Tree.entries T rq.tasks_timeline)
      × AllAbove rq.min_vruntime (Tree.entries T rq.tasks_timeline)
      × (rq.nr_queued ≡ length (Tree.entries T rq.tasks_timeline))
      × (rq.h_nr_queued ≡ length (Tree.entries T rq.tasks_timeline))

  -- A task that joins.
  pub enqueue-IsFair :
      (rq : CfsRq T) (entities : Entities) (task vruntime weight : ℕ)
      → IsFair rq
      → IsFair (enqueue T rq entities task vruntime weight).0
        × (rq.min_vruntime ≤ (enqueue T rq entities task vruntime weight).0.min_vruntime)
  unfolding enqueue
  enqueue-IsFair rq entities task vruntime weight (s, a, n, h) = (
    (
      sorted,
      AllAbove-max rq.min_vruntime (leftmost_or T timeline (max vruntime rq.min_vruntime))
          (Tree.entries T timeline) above
          (leftmost_or-AllAbove T timeline (max vruntime rq.min_vruntime) sorted),
      omega (arith, n, longer),
      omega (arith, h, longer),
    ),
    omega arith,
  )
    where
      key : CfsKey
      key = record {
        vruntime = max vruntime rq.min_vruntime;
        enqueue_order = rq.enqueue_order;
        tid = task;
      }

      timeline : Tree.Root T
      timeline = Tree.insert T rq.tasks_timeline key task

      inserted :
          Tree.entries T timeline ≡ insert_entry key_lt key task (Tree.entries T rq.tasks_timeline)
      inserted = Tree.entries-insert T rq.tasks_timeline key task

      sorted : Sorted key_lt (Tree.entries T timeline)
      sorted = subst (Sorted key_lt) (sym inserted) (
          Sorted-insert_entry key_lt key_lt_asym key_lt_trans key task
            (Tree.entries T rq.tasks_timeline) s)

      above : AllAbove rq.min_vruntime (Tree.entries T timeline)
      above = subst (AllAbove rq.min_vruntime) (sym inserted) (
          AllAbove-insert_entry rq.min_vruntime key task (Tree.entries T rq.tasks_timeline)
            (omega arith) a)

      longer : length (Tree.entries T timeline) ≡ suc (length (Tree.entries T rq.tasks_timeline))
      longer =
          ap length inserted
          ∙ length-insert_entry key_lt key task (Tree.entries T rq.tasks_timeline)

  -- The remaining least entry is not behind the clock after a task has left.
  pub pop_next_lem :
      (rq : CfsRq T) (entities : Entities) {e : Entry} {es : List Entry}
      → IsFair rq
      → Tree.entries T rq.tasks_timeline ≡ e ∷ es
      → (rq' : CfsRq T) × (pop_next T rq entities ≡ some (e.1, rq'))
        × IsFair rq'
        × (Tree.entries T rq'.tasks_timeline ≡ es)
        × AllAbove e.0.vruntime es
        × (rq.min_vruntime ≤ rq'.min_vruntime)
  unfolding pop_next
  pop_next_lem rq entities {e} {es} (s, a, n, h) whole =
      let (timeline, popped, left) = Tree.pop_first_some T rq.tasks_timeline whole in
      let (ns, s') = subst (Sorted key_lt) whole s in
      let (a0, a') = subst (AllAbove rq.min_vruntime) whole a in
      let candidate : ℕ =
        min (leftmost_or T timeline (entities.vruntime e.1)) (entities.vruntime e.1) in
      let sorted : Sorted key_lt (Tree.entries T timeline) = subst (Sorted key_lt) (sym left) s' in
      (
        record rq {
          tasks_timeline = timeline;
          nr_queued = rq.nr_queued - 1;
          h_nr_queued = rq.h_nr_queued - 1;
          load = rq.load - entities.load_weight e.1;
          min_vruntime = max rq.min_vruntime candidate;
        },
        rw (popped, pop_next) refl,
        (
          sorted,
          AllAbove-max rq.min_vruntime candidate (Tree.entries T timeline)
              (subst (AllAbove rq.min_vruntime) (sym left) a')
              (AllAbove-weaken (leftmost_or T timeline (entities.vruntime e.1)) candidate
                (Tree.entries T timeline) (omega arith)
                (leftmost_or-AllAbove T timeline (entities.vruntime e.1) sorted)),
          omega (arith, n, ap length whole, ap length left),
          omega (arith, h, ap length whole, ap length left),
        ),
        left,
        AllAbove-NotLess e.0 es ns,
        omega arith,
      )

  pub pop_next-none :
      (rq : CfsRq T) (entities : Entities)
      → Tree.entries T rq.tasks_timeline ≡ []
      → pop_next T rq entities ≡ none
  unfolding pop_next
  pop_next-none rq entities e = rw (Tree.pop_first_none T rq.tasks_timeline e, pop_next) refl

  pub advance_min_vruntime-IsFair :
      (rq : CfsRq T)
      → IsFair rq
      → IsFair (advance_min_vruntime T rq)
        × (rq.min_vruntime ≤ (advance_min_vruntime T rq).min_vruntime)
  unfolding advance_min_vruntime
  advance_min_vruntime-IsFair rq (s, a, n, h) =
      option_split (λ (rq' : CfsRq T). IsFair rq' × (rq.min_vruntime ≤ rq'.min_vruntime))
        (Tree.first T rq.tasks_timeline) (λ _. ((s, a, n, h), omega arith))
        (λ e f.
          let clear =
            subst
              (λ o.
                AllAbove (elim o [ none ↦ 0 | some d ↦ d.0.vruntime ])
                  (Tree.entries T rq.tasks_timeline))
              f (leftmost_or-AllAbove T rq.tasks_timeline 0 s) in
          (
            (
              s,
              AllAbove-max rq.min_vruntime e.0.vruntime (Tree.entries T rq.tasks_timeline) a clear,
              n,
              h,
            ),
            omega arith,
          ))
