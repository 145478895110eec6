-- ===== src/Sync/RwLock/Invariant.antt =====
-- What the two counters of os/src/sync/rw.rs say of the threads.
use os.Base.{ℕ, ◌+◌, ◌≤◌, ◌≡◌, ◌⊎◌, inl, refl, arith, ap, sym}
use os.Base.Sums.{total, total-set, total-replicate, total-le}
use os.Base.Int.{ℤ, pos, negsuc}
use os.Sync.RwLock.{Lock, Pc, Move, System, Step, pick, Reach, begin, next}

-- Threads that are counted as readers, that hold the lock for writing, and that wait to do so.
abbrev pub as_reader : Pc → ℕ
as_reader Pc.read_taken = 1
as_reader Pc.read_back = 1
as_reader Pc.reading = 1
as_reader _ = 0

abbrev pub as_writer : Pc → ℕ
as_writer Pc.write_taken = 1
as_writer Pc.writing = 1
as_writer _ = 0

abbrev pub as_asking : Pc → ℕ
as_asking Pc.write_loop = 1
as_asking (Pc.write_loaded _) = 1
as_asking Pc.write_free = 1
as_asking Pc.write_taken = 1
as_asking _ = 0

-- Either nobody holds the lock for writing, and `state` counts the readers; or one thread does,
-- there is no reader, and `state` is -1.
abbrev pub Counts : ℤ → ℕ → ℕ → Type 0
Counts state readers writers =
    ((writers ≡ 0) × (state ≡ pos readers)) ⊎ ((writers ≡ 1) × (readers ≡ 0) × (state ≡ negsuc 0))

pub record Inv (s : System) : Type 0 where
  pub held : Counts s.lock.state (total as_reader s.pcs) (total as_writer s.pcs)
  pub asked : s.lock.asked_write ≡ pos (total as_asking s.pcs)

-- What one move does to the counts, for the thread that makes it and `others` besides.
Move-held :
    {m m' : Lock} {p p' : Pc} (r w r' w' : ℕ)
    → Move m p m' p'
    → r' + as_reader p ≡ r + as_reader p'
    → w' + as_writer p ≡ w + as_writer p'
    → as_reader p ≤ r
    → as_writer p ≤ w
    → Counts m.state r w
    → Counts m'.state r' w'
Move-held r w r' w' (Move.cas_won h) e f g k c = ground arith
Move-held r w r' w' Move.back_off e f g k c = ground arith
Move-held r w r' w' Move.drop_read e f g k c = ground arith
Move-held r w r' w' (Move.take_won h) e f g k c = ground arith
Move-held r w r' w' Move.drop_write e f g k c = ground arith
Move-held r w r' w' Move.downgrade e f g k c = ground arith
Move-held r w r' w' _ e f g k c = ground arith

Move-asked :
    {m m' : Lock} {p p' : Pc} (a a' : ℕ)
    → Move m p m' p'
    → a' + as_asking p ≡ a + as_asking p'
    → as_asking p ≤ a
    → m.asked_write ≡ pos a
    → m'.asked_write ≡ pos a'
Move-asked a a' Move.write e f c = ground arith
Move-asked a a' Move.unask e f c = ground arith
Move-asked a a' _ e f c = ground arith

Step-Inv : {s t : System} → Step s t → Inv s → Inv t
Step-Inv {s} (pick i {p} {p'} at move) v = record {
  held =
      Move-held (total as_reader s.pcs) (total as_writer s.pcs) _ _ move
        (total-set as_reader s.pcs i p' at) (total-set as_writer s.pcs i p' at)
        (total-le as_reader s.pcs i at) (total-le as_writer s.pcs i at) v.held;
  asked =
      Move-asked (total as_asking s.pcs) _ move (total-set as_asking s.pcs i p' at)
        (total-le as_asking s.pcs i at) v.asked;
}

-- In every reachable state `state` is -1 while one thread holds the lock for writing and otherwise
-- the number of counted readers, and `asked_write` is the number of queued writers.
pub Reach-Inv : {n : ℕ} {s : System} → Reach n s → Inv s
Reach-Inv {n} begin = record {
  held = inl (
    total-replicate as_writer n Pc.idle refl,
    ap pos (sym (total-replicate as_reader n Pc.idle refl)),
  );
  asked = ap pos (sym (total-replicate as_asking n Pc.idle refl));
}
Reach-Inv (next r st) = Step-Inv st (Reach-Inv r)
