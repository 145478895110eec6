-- ===== src/Sched/Rt/Valid.antt =====
-- The invariant of the real-time run queue of os/src/process/scheduler/rt_rq.rs: the bitmap marks
-- exactly the priorities that have a task, and the counters count the tasks.
use os.Base.{
  ℕ, zero, suc, ◌+◌, ◌/◌, ◌≤◌, ◌<◌, ◌≡◌, ◌≢◌, refl, ap, sym, ◌∙◌, Bool, false, not, List, [], ◌∷◌,
  ◌++◌, arith, ◌==◌, if◌then◌else◌, length, get_or, set, length-set, get_or-set_self, get_or-set_ne,
  Bool-cases, ==_refl, inl, inr, ℕ_discrete,
}
use os.Sched.Task.{Task, sched_rr}
use os.Sched.Rt.{RtPrioArray, RtRq, write_bit, clear_bit, put_back, queue_at, is_empty, max_rt_prio}
use os.Sched.Rt.Bits.{bit, AllWords, write_bit-AllWords, bit-write_bit_self, bit-write_bit_ne}

-- All queued tasks, and those of them under SCHED_RR.
unfoldable pub total : List (List Task) → ℕ
total [] = 0
total (q ∷ qs) = length q + total qs

unfoldable pub rr_count : List Task → ℕ
rr_count [] = 0
rr_count (t ∷ ts) = (if t.sched_policy == sched_rr then 1 else 0) + rr_count ts

unfoldable pub rr_total : List (List Task) → ℕ
rr_total [] = 0
rr_total (q ∷ qs) = rr_count q + rr_total qs

pub total-set :
    (qs : List (List Task)) (p : ℕ) (q : List Task)
    → p < length qs
    → total (set qs p q) + length (get_or qs p []) ≡ total qs + length q
unfolding total
total-set [] p q h = absurd (omega arith)
total-set (x ∷ qs) zero q h = omega arith
total-set (x ∷ qs) (suc p) q h = omega (arith, total-set qs p q (omega arith))

pub rr_total-set :
    (qs : List (List Task)) (p : ℕ) (q : List Task)
    → p < length qs
    → rr_total (set qs p q) + rr_count (get_or qs p []) ≡ rr_total qs + rr_count q
unfolding rr_total
rr_total-set [] p q h = absurd (omega arith)
rr_total-set (x ∷ qs) zero q h = omega arith
rr_total-set (x ∷ qs) (suc p) q h = omega (arith, rr_total-set qs p q (omega arith))

pub rr_count-append : (xs ys : List Task) → rr_count (xs ++ ys) ≡ rr_count xs + rr_count ys
unfolding rr_count
rr_count-append [] ys = omega arith
rr_count-append (x ∷ xs) ys = omega (arith, rr_count-append xs ys)

pub record IsArray (a : RtPrioArray) : Type 0 where
  pub words : AllWords a.bitmap
  pub two_words : length a.bitmap ≡ 2
  pub queues : length a.queue ≡ max_rt_prio
  pub marked : (p : ℕ) → p < max_rt_prio → bit a.bitmap p ≡ not (is_empty (queue_at a p))
  pub unused : (p : ℕ) → max_rt_prio ≤ p → p < 128 → bit a.bitmap p ≡ false

pub record IsValid (r : RtRq) : Type 0 where
  pub array : IsArray r.active
  pub running : r.rt_nr_running ≡ total r.active.queue
  pub rr_running : r.rr_nr_running ≡ rr_total r.active.queue

not_empty : (q : List Task) → 0 < length q → is_empty q ≡ false
not_empty [] h = absurd (omega arith)
not_empty (t ∷ ts) h = refl

==_ne : (m n : ℕ) → m ≢ n → (m == n) ≡ false
==_ne m n h = ground arith

-- Writing queue `p`, and its bit when that has to change, keeps the array valid.
module _ (a : RtPrioArray) (p : ℕ) (q : List Task) (v : IsArray a) (h : p < max_rt_prio) where
  abbrev written : Bool → RtPrioArray
  written b = record { bitmap = write_bit a.bitmap p b; queue = set a.queue p q }

  in_words : p / 64 < length a.bitmap
  in_words = omega (arith, v.two_words)

  queue_at-written :
      (o : ℕ) → get_or (set a.queue p q) o [] ≡ (if p == o then q else get_or a.queue o [])
  queue_at-written o = elim (ℕ_discrete p o) [
    | yes e ↦ rw (← e) (get_or-set_self a.queue p q [] (omega (arith, v.queues, h)) ∙ ground arith)
    | no ne ↦ get_or-set_ne a.queue p o q [] ne ∙ ground arith
  ]

  bit-written :
      (b : Bool) (o : ℕ) → bit (write_bit a.bitmap p b) o ≡ (if p == o then b else bit a.bitmap o)
  bit-written b o = elim (ℕ_discrete p o) [
    | yes e ↦ rw (← e) (bit-write_bit_self a.bitmap p b v.words in_words ∙ ground arith)
    | no ne ↦ bit-write_bit_ne a.bitmap p o b in_words ne ∙ ground arith
  ]

  pub written-IsArray : (b : Bool) → b ≡ not (is_empty q) → IsArray (written b)
  written-IsArray b e = record {
    words = write_bit-AllWords a.bitmap p b v.words in_words;
    two_words = length-set a.bitmap (p / 64) _ ∙ v.two_words;
    queues = length-set a.queue p q ∙ v.queues;
    marked = λ o k. rw (bit-written b o, queue_at-written o) (ground (arith, v.marked o k));
    unused = λ o k l. rw (bit-written b o) (ground (arith, v.unused o k l));
  }

  -- If queue `p` is empty after the write just when it was before, its bit needs no write.
  pub kept-IsArray :
      is_empty q ≡ is_empty (queue_at a p)
      → IsArray (record { bitmap = a.bitmap; queue = set a.queue p q })
  kept-IsArray e = record {
    words = v.words;
    two_words = v.two_words;
    queues = length-set a.queue p q ∙ v.queues;
    marked = λ o k. rw (queue_at-written o) (same o k (ℕ_discrete p o));
    unused = v.unused;
  }
    where
      same :
          (o : ℕ)
          → o < max_rt_prio
          → Dec (p ≡ o)
          → bit a.bitmap o ≡ not (is_empty (if p == o then q else get_or a.queue o []))
      same o k (yes f) =
          let here : bit a.bitmap o ≡ not (is_empty (queue_at a p)) = rw f (v.marked o k) in
          rw (f, ==_refl o) (here ∙ ap not (sym e))
      same o k (no ne) = rw (==_ne p o ne) (v.marked o k)

  -- So does `put_back` after a task has left the queue.
  pub put_back-IsArray : 0 < length (queue_at a p) → IsArray (put_back a p q)
  unfolding put_back clear_bit
  put_back-IsArray nonempty = elim (Bool-cases (is_empty q)) [
    | inl e ↦ rw (e, put_back) (written-IsArray false (rw e))
    | inr e ↦ rw (e, put_back) (kept-IsArray (e ∙ sym (not_empty (queue_at a p) nonempty)))
  ]

  pub queue-put_back : (put_back a p q).queue ≡ set a.queue p q
  unfolding put_back clear_bit
  queue-put_back = ground arith
