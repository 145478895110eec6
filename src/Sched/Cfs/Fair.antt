-- ===== src/Sched/Cfs/Fair.antt =====
-- Where a task joins the fair queue of os/src/process/scheduler/cfs_rq.rs.
use os.Base.{
  ℕ, suc, ◌+◌, ◌≤◌, ◌<◌, ◌≡◌, refl, ap, ◌∙◌, max, true, false, List, [], ◌∷◌, ◌++◌, arith,
  Bool-cases, inl, inr, if_cases, ◌%◌, ◌^◌,
}
use os.Sched.Tree.{Tree, insert_entry}
use os.Sched.Tree.Entries.{NotLess, Sorted}
use os.Sched.Cfs.{CfsKey, key_lt, Entities, CfsRq, enqueue}
use os.Sched.Cfs.Valid.{Entry, AllAbove, IsFair}

-- No entry has a vruntime above `m`.
abbrev pub AtMost : ℕ → List Entry → Type 0
AtMost m [] = Unit
AtMost m (e ∷ es) = (e.0.vruntime ≤ m) × AtMost m es

-- Each entry joined before number `n`.
abbrev pub JoinedBefore : ℕ → List Entry → Type 0
JoinedBefore n [] = Unit
JoinedBefore n (e ∷ es) = (e.0.enqueue_order < n) × JoinedBefore n es

passed : (k e : CfsKey) → key_lt k e ≡ false → e.vruntime ≤ k.vruntime
passed k e h = ground arith

stopped :
    (k e : CfsKey) → e.enqueue_order < k.enqueue_order → key_lt k e ≡ true → k.vruntime < e.vruntime
stopped k e h l = ground arith

AllAbove-after :
    (m : ℕ) (k : CfsKey) (es : List Entry) → m ≤ k.vruntime → NotLess key_lt k es → AllAbove m es
AllAbove-after m k [] h n = tt
AllAbove-after m k (e ∷ es) h (n, ns) =
    (omega (arith, h, passed e.0 k n), AllAbove-after m k es h ns)

insert_entry-place :
    (k : CfsKey) (v : ℕ) (es : List Entry)
    → Sorted key_lt es
    → JoinedBefore k.enqueue_order es
    → (before : List Entry) × (after : List Entry) × (es ≡ before ++ after)
      × (insert_entry key_lt k v es ≡ before ++ ((k, v) ∷ after))
      × AtMost k.vruntime before
      × AllAbove (suc k.vruntime) after
unfolding insert_entry
insert_entry-place k v [] s j = ([], [], refl, refl, tt, tt)
insert_entry-place k v (e ∷ es) (n, s) (j, js) = elim (Bool-cases (key_lt k e.0)) [
  | inl less ↦ (
    [],
    e ∷ es,
    refl,
    rw less refl,
    tt,
    (stopped k e.0 j less, AllAbove-after (suc k.vruntime) e.0 es (stopped k e.0 j less) n),
  )
  | inr not_less ↦
      let (before, after, f, g, low, high) = insert_entry-place k v es s js in
      (
        e ∷ before,
        after,
        ap (λ xs. e ∷ xs) f,
        rw not_less (ap (λ xs. e ∷ xs) g),
        (passed k e.0 not_less, low),
        high,
      )
]

-- In a valid queue whose tasks all joined before the present number of enqueues, which has not wrapped, a
-- task joins behind every task whose vruntime is not above its own (raised to `min_vruntime`), and before every
-- other: tasks of the same vruntime are served in the order in which they joined.
pub enqueue_lem :
    {T : Tree CfsKey ℕ key_lt} (rq : CfsRq T) (entities : Entities) (task vruntime weight : ℕ)
    → IsFair rq
    → JoinedBefore rq.enqueue_order (Tree.entries T rq.tasks_timeline)
    → (before : List Entry) × (key : CfsKey) × (after : List Entry) × (key.vruntime
        ≡ max vruntime rq.min_vruntime)
      × (Tree.entries T rq.tasks_timeline ≡ before ++ after)
      × (Tree.entries T (enqueue T rq entities task vruntime weight).0.tasks_timeline
          ≡ before ++ ((key, task) ∷ after))
      × AtMost key.vruntime before
      × AllAbove (suc key.vruntime) after
unfolding enqueue
enqueue_lem {T} rq entities task vruntime weight (s, _, _, _) j =
    let key : CfsKey = record {
      vruntime = max vruntime rq.min_vruntime;
      enqueue_order = rq.enqueue_order;
      tid = task;
    } in
    let (before, after, f, g, low, high) =
      insert_entry-place key task (Tree.entries T rq.tasks_timeline) s j in
    (before, key, after, refl, f, Tree.entries-insert T rq.tasks_timeline key task ∙ g, low, high)

-- While the number of enqueues does not wrap, every task in the queue joined before it.
pub enqueue-JoinedBefore :
    {T : Tree CfsKey ℕ key_lt} (rq : CfsRq T) (entities : Entities) (task vruntime weight : ℕ)
    → rq.enqueue_order + 1 < 2 ^ 64
    → JoinedBefore rq.enqueue_order (Tree.entries T rq.tasks_timeline)
    → JoinedBefore
        (enqueue T rq entities task vruntime weight).0.enqueue_order
        (Tree.entries T (enqueue T rq entities task vruntime weight).0.tasks_timeline)
unfolding enqueue insert_entry
enqueue-JoinedBefore {T} rq entities task vruntime weight small j =
    let later : (rq.enqueue_order + 1) % 2 ^ 64 ≡ rq.enqueue_order + 1 = omega (arith, small) in
    rw
      (
        later,
        Tree.entries-insert T rq.tasks_timeline
            (record {
              vruntime = max vruntime rq.min_vruntime;
              enqueue_order = rq.enqueue_order;
              tid = task;
            })
            task,
      )
      (joined (Tree.entries T rq.tasks_timeline) j)
  where
    key : CfsKey
    key = record {
      vruntime = max vruntime rq.min_vruntime;
      enqueue_order = rq.enqueue_order;
      tid = task;
    }

    wider :
        (es : List Entry)
        → JoinedBefore rq.enqueue_order es
        → JoinedBefore (rq.enqueue_order + 1) es
    wider [] h = tt
    wider (e ∷ es) (h, hs) = (omega (arith, h), wider es hs)

    joined :
        (es : List Entry)
        → JoinedBefore rq.enqueue_order es
        → JoinedBefore (rq.enqueue_order + 1) (insert_entry key_lt key task es)
    joined [] h = (omega arith, tt)
    joined (e ∷ es) (h, hs) =
        if_cases (JoinedBefore (rq.enqueue_order + 1)) (key_lt key e.0)
          (λ _. (omega arith, (omega (arith, h), wider es hs)))
          (λ _. (omega (arith, h), joined es hs))
