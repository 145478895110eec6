-- ===== src/Sched/Deadline/Valid.antt =====
-- The invariant of the deadline queue of os/src/process/scheduler/deadline_rq.rs.
use os.Base.{
  ℕ, ◌-◌, ◌≤◌, ◌≡◌, refl, ap, sym, ◌∙◌, Bool, true, false, Option, none, some, Option-cases, inl,
  inr, List, [], ◌∷◌, length, leb, arith,
}
use mathlib.Core.Path.{subst}
use os.Sched.Tree.{Tree, first_entry, Removed, same_key}
use os.Sched.Tree.Entries.{
  NotLess, Sorted, length-insert_entry, Sorted-insert_entry, Removed-Sorted,
}
use os.Sched.Deadline.{DeadlineKey, key_lt, never, DeadlineRq, enqueue, dequeue, pop_next}

key_lt_asym : (a b : DeadlineKey) → key_lt a b ≡ true → key_lt b a ≡ false
key_lt_asym a b h = ground arith

key_lt_trans : (a b c : DeadlineKey) → key_lt a b ≡ true → key_lt c b ≡ false → key_lt c a ≡ false
key_lt_trans a b c h k = ground arith

abbrev pub Entry : Type 0
Entry = DeadlineKey × ℕ

-- No entry has a deadline before `d`.
abbrev pub NotBefore : ℕ → List Entry → Type 0
NotBefore d [] = Unit
NotBefore d (e ∷ es) = (d ≤ e.0.deadline) × NotBefore d es

NotLess-NotBefore :
    (k : DeadlineKey) (es : List Entry) → NotLess key_lt k es → NotBefore k.deadline es
NotLess-NotBefore k [] n = tt
NotLess-NotBefore k (e ∷ es) (n, ns) = (ground arith, NotLess-NotBefore k es ns)

-- The deadline of the first entry, or `u64::MAX`.
abbrev pub first_deadline : List Entry → ℕ
first_deadline es = elim (first_entry es) [ none ↦ never | some e ↦ e.0.deadline ]

module _ {T : Tree DeadlineKey ℕ key_lt} where
  -- The tree is in order, and the count is right.
  abbrev pub IsOrdered : DeadlineRq T → Type 0
  IsOrdered rq =
      Sorted key_lt (Tree.entries T rq.root) × (rq.dl_nr_running ≡ length (Tree.entries T rq.root))

  pub enqueue-IsOrdered :
      (rq : DeadlineRq T) (task absolute_deadline : ℕ)
      → IsOrdered rq
      → IsOrdered (enqueue T rq task absolute_deadline)
  unfolding enqueue
  enqueue-IsOrdered rq task absolute_deadline (s, n) =
      let key : DeadlineKey = record { deadline = absolute_deadline; tid = task } in
      let inserted = Tree.entries-insert T rq.root key task in
      (
        subst (Sorted key_lt) (sym inserted) (
            Sorted-insert_entry key_lt key_lt_asym key_lt_trans key task (Tree.entries T rq.root)
              s),
        omega (
          arith,
          n,
          ap length inserted,
          length-insert_entry key_lt key task (Tree.entries T rq.root),
        ),
      )

  -- `pop_next` of a queue that is in order, with a right count, and not empty takes a task that no other
  -- task's deadline is before; the queue stays so, without that task, and `earliest_dl_next` is the
  -- deadline of the next, or u64::MAX if there is none.
  pub pop_next-IsOrdered :
      (rq : DeadlineRq T) {e : Entry} {es : List Entry}
      → IsOrdered rq
      → Tree.entries T rq.root ≡ e ∷ es
      → (rq' : DeadlineRq T) × (pop_next T rq ≡ some (e.1, rq'))
        × IsOrdered rq'
        × (Tree.entries T rq'.root ≡ es)
        × NotBefore e.0.deadline es
        × (rq'.earliest_dl_next ≡ first_deadline es)
  unfolding pop_next
  pop_next-IsOrdered rq {e} {es} (s, n) whole =
      let (root, popped, left) = Tree.pop_first_some T rq.root whole in
      let (ns, s') = subst (Sorted key_lt) whole s in
      (
        record rq {
          root = root;
          dl_nr_running = rq.dl_nr_running - 1;
          earliest_dl_next = elim (Tree.first T root) [ none ↦ never | some d ↦ d.0.deadline ];
        },
        rw (popped, pop_next) refl,
        (subst (Sorted key_lt) (sym left) s', omega (arith, n, ap length whole, ap length left)),
        left,
        NotLess-NotBefore e.0 es ns,
        ap (λ o. elim o [ none ↦ never | some d ↦ d.0.deadline ])
            (Tree.first_lem T root ∙ ap first_entry left),
      )

  -- `dequeue` of a queue that is in order, with a right count, never lets the count pass 0, and keeps the
  -- queue so; it takes out a task with the deadline and the thread id, or there is none.
  pub dequeue-IsOrdered :
      (rq : DeadlineRq T) (tid absolute_deadline : ℕ)
      → IsOrdered rq
      → (task : Option ℕ) × (rq' : DeadlineRq T) × (dequeue T rq tid absolute_deadline
          ≡ some (task, rq'))
        × IsOrdered rq'
        × Removed
            (λ e. same_key key_lt (record { deadline = absolute_deadline; tid = tid }) e.0)
            (Tree.entries T rq.root)
            task
            (Tree.entries T rq'.root)
  unfolding dequeue
  dequeue-IsOrdered rq tid absolute_deadline (s, n) =
      elim (Option-cases (Tree.remove T rq.root key).0) [
        | inl e ↦
            let (none_has, same) = gone e in
            (
              none,
              record rq { root = root },
              rw (e, dequeue) refl,
              rw same (s, n),
              (none_has, same),
            )
        | inr (task, e) ↦
            let (s', shorter) =
              Removed-Sorted key_lt test (Tree.entries T rq.root) task (Tree.entries T root)
                (gone e) s in
            let one : leb 1 rq.dl_nr_running ≡ true = ground (arith, n, shorter) in
            (
              some task,
              record rq { root = root; dl_nr_running = rq.dl_nr_running - 1 },
              rw (e, one, dequeue) refl,
              (s', omega (arith, n, shorter)),
              gone e,
            )
      ]
    where
      key : DeadlineKey
      key = record { deadline = absolute_deadline; tid = tid }

      test : Entry → Bool
      test e = same_key key_lt key e.0

      root : Tree.Root T
      root = (Tree.remove T rq.root key).1

      gone :
          {o : Option ℕ}
          → (Tree.remove T rq.root key).0 ≡ o
          → Removed test (Tree.entries T rq.root) o (Tree.entries T root)
      gone e =
          subst (λ o. Removed test (Tree.entries T rq.root) o (Tree.entries T root)) e
            (Tree.remove_lem T rq.root key)
