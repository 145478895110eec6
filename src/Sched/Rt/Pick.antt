-- ===== src/Sched/Rt/Pick.antt =====
-- Which task the real-time queue of os/src/process/scheduler/rt_rq.rs serves: the first of the
-- most urgent priority, found through the bitmap.
use os.Base.{
  ℕ, zero, suc, ◌*◌, ◌/◌, ◌≤◌, ◌<◌, ◌≡◌, refl, ap, ◌∙◌, ◌⊎◌, true, false, Option, none, some, List,
  [], ◌∷◌, ◌++◌, arith, length, get_or, set, Bool-cases, inl, inr, dec_lt,
}
use os.Sched.Task.{Task}
use os.Sched.Rt.{
  RtPrioArray, RtRq, put_back, queue_at, is_empty, max_rt_prio, counted_out, front, pick_next,
  pop_next, pop_front_of, highest_priority, Word,
}
use os.Sched.Rt.Bits.{bit, Found, find_word-Found}
use os.Sched.Rt.Valid.{IsArray, IsValid, queue-put_back}
use os.Sched.Rt.Ops.{counted_out-IsValid}

-- The queued tasks in the order of service: by priority, and by arrival within a priority.
unfoldable pub served : List (List Task) → List Task
served [] = []
served (q ∷ qs) = q ++ served qs

served_empty :
    (qs : List (List Task)) → ((o : ℕ) → is_empty (get_or qs o []) ≡ true) → served qs ≡ []
unfolding served
served_empty [] h = refl
served_empty ([] ∷ qs) h = served_empty qs (λ o. h (suc o))
served_empty ((t ∷ ts) ∷ qs) h = cc (h 0)

-- With nothing before priority `p`, its queue comes first, also after a write to it.
served_first :
    (qs : List (List Task)) (p : ℕ)
    → p < length qs
    → ((o : ℕ) → o < p → is_empty (get_or qs o []) ≡ true)
    → (later : List Task) × (served qs ≡ get_or qs p [] ++ later)
      × ((q : List Task) → served (set qs p q) ≡ q ++ later)
unfolding served
served_first [] p h k = absurd (omega arith)
served_first (q ∷ qs) zero h k = (served qs, refl, λ r. refl)
served_first ([] ∷ qs) (suc p) h k =
    served_first qs p (omega arith) (λ o l. k (suc o) (omega arith))
served_first ((t ∷ ts) ∷ qs) (suc p) h k = cc (k 0 (omega arith))

bit-outside : (ws : List Word) (p : ℕ) → length ws * 64 ≤ p → bit ws p ≡ false
unfolding bit
bit-outside ws p h = rw (beyond ws (p / 64) (omega arith))
  where
    beyond : (vs : List Word) (i : ℕ) → length vs ≤ i → get_or vs i [] ≡ []
    beyond [] i h = refl
    beyond (v ∷ vs) zero h = absurd (omega arith)
    beyond (v ∷ vs) (suc i) h = beyond vs i (omega arith)

-- What the bitmap search finds in a valid array.
abbrev pub Highest : RtPrioArray → Option ℕ → Type 0
Highest a none = (o : ℕ) → is_empty (queue_at a o) ≡ true
Highest a (some p) =
    (p < max_rt_prio)
    × (is_empty (queue_at a p) ≡ false)
    × ((o : ℕ) → o < p → is_empty (queue_at a o) ≡ true)

pub queue_at-outside : (a : RtPrioArray) (p : ℕ) → IsArray a → max_rt_prio ≤ p → queue_at a p ≡ []
queue_at-outside a p v h = beyond a.queue p (omega (arith, v.queues))
  where
    beyond : (qs : List (List Task)) (i : ℕ) → length qs ≤ i → get_or qs i [] ≡ []
    beyond [] i h = refl
    beyond (q ∷ qs) zero h = absurd (omega arith)
    beyond (q ∷ qs) (suc i) h = beyond qs i (omega arith)

-- `highest_priority` finds the lowest number whose queue has a task, and fails only when all the
-- queues are empty.
pub highest_priority-Highest : (a : RtPrioArray) → IsArray a → Highest a (highest_priority a)
unfolding highest_priority
highest_priority-Highest a v = from _ (find_word-Found 0 a.bitmap v.words)
  where
    empty_at : (o : ℕ) → bit a.bitmap o ≡ false → is_empty (queue_at a o) ≡ true
    empty_at o e = elim (dec_lt o max_rt_prio) [
      | yes h ↦ ground (arith, v.marked o h)
      | no h ↦ rw (queue_at-outside a o v (omega arith))
    ]

    inside : (p : ℕ) → bit a.bitmap p ≡ true → p < max_rt_prio
    inside p e = elim (dec_lt p max_rt_prio) [
      | yes h ↦ h
      | no h ↦ elim (dec_lt p 128) [
        | yes k ↦ cc (v.unused p (omega arith) k)
        | no k ↦ cc (bit-outside a.bitmap p (omega (arith, v.two_words)))
      ]
    ]

    from : (o : Option ℕ) → Found 0 a.bitmap o → Highest a o
    from none f = λ o. empty_at o (f o)
    from (some r) (p, at, set_there, below) =
        let e : r ≡ p = omega (arith, at) in
        let h : p < max_rt_prio = inside p set_there in
        rw e (h, ground (arith, v.marked p h), λ o k. empty_at o (below o k))

cons_of : (q : List Task) → is_empty q ≡ false → (t : Task) × (ts : List Task) × (q ≡ t ∷ ts)
cons_of [] e = cc
cons_of (t ∷ ts) e = (t, ts, refl)

pop_next-none :
    (r : RtRq) → r.rt_throttled ≡ false → highest_priority r.active ≡ none → pop_next r ≡ (none, r)
unfolding pop_next
pop_next-none r open_now e = ground arith

pop_next-some :
    (r : RtRq) (p : ℕ) (t : Task) (ts : List Task)
    → r.rt_throttled ≡ false
    → highest_priority r.active ≡ some p
    → queue_at r.active p ≡ t ∷ ts
    → pop_next r ≡ (some t, counted_out r (put_back r.active p ts) t)
unfolding pop_next pop_front_of
pop_next-some r p t ts open_now e q = ground arith

fronts_of : (r : RtRq) (p : ℕ) (q : List Task) → front q ≡ (pop_front_of r p q).0
unfolding pop_front_of
fronts_of r p [] = refl
fronts_of r p (t ∷ ts) = refl

-- What `pop_next` does to a run queue that is not throttled.
abbrev pub Pops : RtRq → Type 0
Pops r =
    ((served r.active.queue ≡ []) × (pop_next r ≡ (none, r)))
    ⊎ ((t : Task) × (rest : List Task) × (served r.active.queue ≡ t ∷ rest)
        × ((pop_next r).0 ≡ some t)
        × (served (pop_next r).1.active.queue ≡ rest)
        × IsValid (pop_next r).1)

-- While the run queue is not throttled, `pop_next` takes the first task in the order of service,
-- leaves the others in their order and the run queue valid; it fails, without a change, only when
-- no task is queued.
pub pop_next-Pops : (r : RtRq) → IsValid r → r.rt_throttled ≡ false → Pops r
pop_next-Pops r v open_now =
    from (highest_priority r.active) refl (highest_priority-Highest r.active v.array)
  where
    from : (o : Option ℕ) → highest_priority r.active ≡ o → Highest r.active o → Pops r
    from none e f = inl (served_empty r.active.queue f, pop_next-none r open_now e)
    from (some p) e (h, ne, below) =
        let (t, ts, q) = cons_of (queue_at r.active p) ne in
        let (later, now, changed) =
          served_first r.active.queue p (omega (arith, v.array.queues)) below in
        let popped = pop_next-some r p t ts open_now e q in
        inr (
          t,
          ts ++ later,
          now ∙ ap (λ l. l ++ later) q,
          ap (λ x. x.0) popped,
          ap (λ x. served x.1.active.queue) popped
              ∙ ap served (queue-put_back r.active p ts v.array h)
              ∙ changed ts,
          rw popped (counted_out-IsValid r p [] t ts v h q),
        )

-- `pick_next` shows the task that `pop_next` would take; a throttled run queue gives neither.
pub pick_next-eq-pop_next : (r : RtRq) → pick_next r ≡ (pop_next r).0
unfolding pick_next pop_next
pick_next-eq-pop_next r = elim (Bool-cases r.rt_throttled) [
  | inl e ↦ ground arith
  | inr e ↦ shown (highest_priority r.active) refl e
]
  where
    fronts : (p : ℕ) (q : List Task) → front q ≡ (pop_front_of r p q).0
    fronts = fronts_of r

    shown :
        (o : Option ℕ)
        → highest_priority r.active ≡ o
        → r.rt_throttled ≡ false
        → pick_next r ≡ (pop_next r).0
    shown none e f = ground arith
    shown (some p) e f = ground (arith, fronts p (queue_at r.active p))
