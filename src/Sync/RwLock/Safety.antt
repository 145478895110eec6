-- ===== src/Sync/RwLock/Safety.antt =====
-- What a holder of a guard of os/src/sync/rw.rs can rely on.
use os.Base.{ℕ, ◌≡◌, ◌≢◌, refl, ap, some, get_elem?, set, arith, get_elem?-set_found, set_twice}
use os.Base.Sums.{total, total-le, total-two}
use os.Base.Int.{pos}
use os.Sync.RwLock.{Lock, Pc, Move, System, pick, Reach, next}
use os.Sync.RwLock.Invariant.{as_reader, as_writer, as_asking, Reach-Inv}

-- While a thread holds the lock for writing, no other thread holds it in any way.
pub writer_excludes :
    {n : ℕ} {s : System} (i j : ℕ) {q : Pc}
    → Reach n s
    → i ≢ j
    → get_elem? s.pcs i ≡ some Pc.writing
    → get_elem? s.pcs j ≡ some q
    → (q ≢ Pc.writing) × (q ≢ Pc.reading)
writer_excludes {s = s} i j r ne e g =
    let v = Reach-Inv r in
    (
      λ h. ground (arith, v.held, ap as_writer h, total-two as_writer s.pcs i j ne e g),
      λ h. ground (
        arith,
        v.held,
        ap as_reader h,
        total-le as_writer s.pcs i e,
        total-le as_reader s.pcs j g,
      ),
    )

-- While some thread is queued as a writer, a thread that gets a read guard gets it by the downgrade
-- of its own write guard: no new reader passes the queue.
pub queued_writer_bars_readers :
    {n : ℕ} {s : System} (w : ℕ) {queued p : Pc} {m : Lock}
    → Reach n s
    → get_elem? s.pcs w ≡ some queued
    → as_asking queued ≡ 1
    → Move s.lock p m Pc.reading
    → p ≡ Pc.writing
queued_writer_bars_readers w r e a (Move.recheck_clear h) =
    absurd (ground (arith, (Reach-Inv r).asked, total-le as_asking _ w e))
queued_writer_bars_readers w r e a Move.downgrade = refl

-- A thread's own steps.
pub data Own (i : ℕ) (s : System) : System → Type 0 where
  move :
      {p p' : Pc} {m : Lock}
      → get_elem? s.pcs i ≡ some p
      → Move s.lock p m p'
      → Own i s (record { lock = m; pcs = set s.pcs i p' })

pub data Run (i : ℕ) (s : System) : System → Type 0 where
  stay : Run i s s
  then_own : {t u : System} → Run i s t → Own i t u → Run i s u

-- From a reachable state in which no thread is counted as a reader or holds the lock for writing, a
-- queued writer reaches its guard by steps of its own alone: the state after them is reachable, and
-- no other thread has moved.
pub queued_writer_gets_in :
    {n : ℕ} {s : System} (i : ℕ)
    → Reach n s
    → get_elem? s.pcs i ≡ some Pc.write_loop
    → total as_reader s.pcs ≡ 0
    → total as_writer s.pcs ≡ 0
    → (t : System) × Run i s t × Reach n t × (t.pcs ≡ set s.pcs i Pc.writing)
queued_writer_gets_in {s = s} i r at readers writers =
    let free : s.lock.state ≡ pos 0 = ground (arith, (Reach-Inv r).held) in
    let loaded = get_elem?-set_found s.pcs i (Pc.write_loaded s.lock.state) at in
    let seen =
      get_elem?-set_found (set s.pcs i (Pc.write_loaded s.lock.state)) i Pc.write_free loaded in
    let taken = get_elem?-set_found _ i Pc.write_taken seen in
    (
      _,
      then_own
          (then_own
            (then_own (then_own stay (move at Move.load_write)) (move loaded (Move.see_free free)))
            (move seen (Move.take_won free)))
          (move taken Move.unask),
      next
          (next (next (next r (pick i at Move.load_write)) (pick i loaded (Move.see_free free)))
            (pick i seen (Move.take_won free)))
          (pick i taken Move.unask),
      rw
          (
            set_twice s.pcs i (Pc.write_loaded s.lock.state) Pc.write_free,
            set_twice s.pcs i Pc.write_free Pc.write_taken,
            set_twice s.pcs i Pc.write_taken Pc.writing,
          )
          refl,
    )
