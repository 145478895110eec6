-- ===== src/Pipe/Read.antt =====
-- What `read_for_syscall` of os/src/fs/pipe.rs returns.
use os.Base.{
  ℕ, zero, suc, ◌≤◌, ◌<◌, ◌≡◌, ◌⊎◌, refl, ap, ◌∙◌, min, true, false, List, [], ◌∷◌, ◌++◌, arith,
  length,
}
use os.Pipe.Ring.{PipeRingBuffer, read_byte, available_read}
use os.Pipe.Refine.{IsValid, contents, available_read-length, read_byte-IsValid, read_byte_refines}
use os.Pipe.Io.{ok, err, Wake, ReadOutcome, returns, read_burst, read_pass, read_for_syscall}

-- A burst of reads: `bs` comes off the front of the queue.
pub record Takes (rounds room : ℕ) (r : PipeRingBuffer) (bs : List ℕ) (r' : PipeRingBuffer)
    : Type 0 where
  pub valid : IsValid r'
  pub taken : contents r ≡ bs ++ contents r'
  pub count : length bs ≡ min rounds room
  pub ends : r'.write_ends_closed ≡ r.write_ends_closed

ends-read_byte : (r : PipeRingBuffer) → (read_byte r).1.write_ends_closed ≡ r.write_ends_closed
unfolding read_byte
ends-read_byte r = refl

read_burst-Takes :
    (rounds room : ℕ) (r : PipeRingBuffer)
    → IsValid r
    → rounds ≤ available_read r
    → let (bs, r') = read_burst rounds room r in Takes rounds room r bs r'
unfolding read_burst
read_burst-Takes zero room r v h = record {
  valid = v;
  taken = refl;
  count = omega arith;
  ends = refl;
}
read_burst-Takes (suc rounds) zero r v h = record {
  valid = v;
  taken = refl;
  count = omega arith;
  ends = refl;
}
read_burst-Takes (suc rounds) (suc room) r v h =
    let first = read_byte_refines r v (omega arith) in
    let (b, r') = read_byte r in
    let v' = read_byte-IsValid r v in
    let t =
      read_burst-Takes rounds room r' v'
        (omega (arith, ap length first, available_read-length r, available_read-length r')) in
    record {
      valid = t.valid;
      taken = first ∙ ap (λ l. b ∷ l) t.taken;
      count = omega (arith, t.count);
      ends = t.ends ∙ ends-read_byte r;
    }

-- When the ring has bytes, a read returns at once, whatever would happen in a wait: it takes as
-- many as the ring has and the buffer holds, in order, and leaves the others and a valid ring.
pub read_for_syscall-Takes :
    (want : ℕ) (r : PipeRingBuffer) (ws : List Wake)
    → IsValid r
    → 0 < available_read r
    → (bs : List ℕ) × (r' : PipeRingBuffer) × (read_for_syscall want r ws
        ≡ returns (ok (length bs)) bs r')
      × (contents r ≡ bs ++ contents r')
      × (length bs ≡ min (available_read r) want)
      × IsValid r'
unfolding read_for_syscall
read_for_syscall-Takes want r ws v h =
    let t = read_burst-Takes (available_read r) want r v (omega arith) in
    let (bs, r') = read_burst (available_read r) want r in
    (bs, r', passes ws, t.taken, t.count, t.valid)
  where
    passes : (ws : List Wake) → read_for_syscall want r ws ≡ read_pass want r
    passes [] = ground arith
    passes (w ∷ ws) = ground arith

-- The answers that need an explanation: none, end of file and interruption.
abbrev pub Explained : ℕ → ReadOutcome → Type 0
Explained want (returns (ok n) bs r) =
    (n ≡ length bs) × ((0 < n) ⊎ ((available_read r ≡ 0) × (r.write_ends_closed ≡ true)))
Explained want (returns (err e) bs r) =
    (bs ≡ []) × (available_read r ≡ 0) × (r.write_ends_closed ≡ false)
Explained want ReadOutcome.waits = Unit {0}

abbrev pub AllNext : List Wake → Type 0
AllNext [] = Unit {0}
AllNext (w ∷ ws) = IsValid w.next × AllNext ws
