-- ===== src/Pipe/Io.antt =====
-- `read_for_syscall`, `write` and `write_nonblock` of os/src/fs/pipe.rs. Each pass of their loops
-- runs with the ring locked. Between two passes other processes may change the ring and the ends:
-- what they leave is an argument, one record for each wait. Whether the other side is closed is
-- read once in a pass.
use os.Base.{
  ℕ, zero, suc, ◌+◌, ◌-◌, Bool, true, false, not, List, [], ◌∷◌, ltb, ◌==◌, if◌then◌else◌, length,
}
use os.Pipe.Ring.{PipeRingBuffer, write_byte, read_byte, available_read, available_write}

-- The errors of `Errno` that these calls return.
pub data Errno : Type 0 where
  e_again e_pipe e_intr e_restart e_badf : Errno

pub data Answer : Type 0 where
  ok : ℕ → Answer
  err : Errno → Answer

-- What a wait of the caller in `block_current_and_run_next_if` came back with.
pub record Wake : Type 0 where
  pub blocked : Bool  -- the caller did sleep
  pub seen : PipeRingBuffer  -- the ring at the look right after the wake-up
  pub signal : Bool  -- `check_pending_signal`
  pub restart : Bool  -- `pending_signal_should_restart`
  pub next : PipeRingBuffer  -- the ring at the next pass of the loop

-- The bytes that a read puts in the user's buffer, and the ring it leaves; `waits` means that the
-- caller still sleeps when the list of waits ends.
pub data ReadOutcome : Type 0 where
  returns : Answer → List ℕ → PipeRingBuffer → ReadOutcome
  waits : ReadOutcome

-- `for _ in 0..loop_read`: bytes for a buffer with room for `room` more.
unfoldable pub read_burst : ℕ → ℕ → PipeRingBuffer → List ℕ × PipeRingBuffer
read_burst zero room r = ([], r)
read_burst (suc rounds) zero r = ([], r)
read_burst (suc rounds) (suc room) r =
    let (b, r') = read_byte r in let (bs, r'') = read_burst rounds room r' in (b ∷ bs, r'')

-- A pass that finds bytes always returns, so that no byte was read before when a pass finds none.
abbrev pub read_pass : ℕ → PipeRingBuffer → ReadOutcome
read_pass want r =
    let (bs, r') = read_burst (available_read r) want r in returns (ok (length bs)) bs r'

-- After a wait: data comes first, then end of file, then a signal; else the loop goes on.
unfoldable pub after_wake : Wake → ReadOutcome → ReadOutcome
after_wake w again =
    if not w.blocked
    then again
    else (if ltb 0 (available_read w.seen)
        then again
        else (if w.seen.write_ends_closed
            then returns (ok 0) [] w.seen
            else (if w.signal
                then returns (err (if w.restart then e_restart else e_intr)) [] w.seen
                else again)))

unfoldable pub read_for_syscall : ℕ → PipeRingBuffer → List Wake → ReadOutcome
unfolding after_wake
read_for_syscall want r [] =
    if available_read r == 0
    then (if r.write_ends_closed then returns (ok 0) [] r else ReadOutcome.waits)
    else read_pass want r
read_for_syscall want r (w ∷ ws) =
    let again = read_for_syscall want w.next ws in
    if available_read r == 0
    then (if r.write_ends_closed then returns (ok 0) [] r else after_wake w again)
    else read_pass want r

-- `for _ in 0..loop_write`: the bytes that are left after the burst, and the ring.
unfoldable pub write_burst : ℕ → List ℕ → PipeRingBuffer → List ℕ × PipeRingBuffer
write_burst zero bs r = (bs, r)
write_burst (suc rounds) [] r = ([], r)
write_burst (suc rounds) (b ∷ bs) r = write_burst rounds bs (write_byte r b)

-- The ring that a write leaves, whether it ends with a wake-up of the readers, and whether it puts
-- SIGPIPE on the caller (`broken_pipe_error`).
pub record Written : Type 0 where
  pub answer : Answer
  pub ring : PipeRingBuffer
  pub wakes_readers : Bool
  pub sigpipe : Bool

-- The loop of `write_nonblock` over the room: `closed i` is what `all_read_ends_closed` says before byte
-- `i`. Whether the loop met the read ends closed, the bytes that are left, and the ring.
unfoldable pub write_until_closed :
    (ℕ → Bool) → ℕ → ℕ → List ℕ → PipeRingBuffer → Bool × (List ℕ × PipeRingBuffer)
write_until_closed closed i zero bs r = (false, (bs, r))
write_until_closed closed i (suc rounds) [] r = (false, ([], r))
write_until_closed closed i (suc rounds) (b ∷ bs) r = elim (closed i) [
  | true ↦ (true, (b ∷ bs, r))
  | false ↦ write_until_closed closed (i + 1) rounds bs (write_byte r b)
]

-- How it ends after `already` bytes.
unfoldable pub end_burst : Bool → ℕ → PipeRingBuffer → Written
end_burst true zero r = record {
  answer = err e_pipe;
  ring = r;
  wakes_readers = false;
  sigpipe = true;
}
end_burst true (suc already) r = record {
  answer = ok (suc already);
  ring = r;
  wakes_readers = false;
  sigpipe = false;
}
end_burst false already r = record {
  answer = ok already;
  ring = r;
  wakes_readers = ltb 0 already;
  sigpipe = false;
}

-- The pass of `write_nonblock` when the ring has room.
unfoldable pub write_room : (ℕ → Bool) → List ℕ → PipeRingBuffer → Written
unfolding write_until_closed end_burst
write_room closed bs r =
    let (hit, (left, r')) = write_until_closed closed 0 (available_write r) bs r in
    end_burst hit (length bs - length left) r'

-- `write_nonblock` on the write end; its loop makes one pass.
unfoldable pub write_nonblock : (ℕ → Bool) → List ℕ → PipeRingBuffer → Written
unfolding write_room
write_nonblock closed bs r =
    if available_write r == 0
    then (if closed 0
        then record { answer = err e_pipe; ring = r; wakes_readers = false; sigpipe = true }
        else record { answer = err e_again; ring = r; wakes_readers = false; sigpipe = false })
    else write_room closed bs r

-- What the loop of the blocking `write` meets when it goes round: the answer of
-- `check_pending_signal` in the pass before a wait, and the ring at the next pass.
pub record Round : Type 0 where
  pub signal : Bool
  pub next : PipeRingBuffer

-- A pass of `write` stops with an answer, or goes round with the bytes that are left. (A pass on a
-- full ring also wakes the readers if something was written before.)
pub data Pass : Type 0 where
  stop : Written → Pass
  round : ℕ → List ℕ → PipeRingBuffer → Pass

-- What the burst leaves decides: nothing left is the end, else the ring is full.
abbrev pub burst_end : ℕ → List ℕ × PipeRingBuffer → Pass
burst_end want ([], r) =
    stop (record { answer = ok want; ring = r; wakes_readers = true; sigpipe = false })
burst_end want (b ∷ left, r) = round (want - length (b ∷ left)) (b ∷ left) r

-- The pass when the ring has room, after `already` bytes.
unfoldable pub room_pass : ℕ → List ℕ → PipeRingBuffer → Pass
room_pass already [] r =
    stop (record { answer = ok already; ring = r; wakes_readers = true; sigpipe = false })
room_pass already (b ∷ rest) r =
    if r.read_ends_closed
    then stop (record { answer = ok already; ring = r; wakes_readers = false; sigpipe = true })
    else burst_end (already + length (b ∷ rest)) (write_burst (available_write r) (b ∷ rest) r)

unfoldable pub write_pass : ℕ → List ℕ → PipeRingBuffer → Bool → Pass
unfolding room_pass
write_pass already bs r signal =
    if available_write r == 0
    then (if r.read_ends_closed
        then stop (record { answer = ok already; ring = r; wakes_readers = false; sigpipe = true })
        else (if signal
            then stop (record {
              answer = ok already;
              ring = r;
              wakes_readers = ltb 0 already;
              sigpipe = false;
            })
            else round already bs r))
    else room_pass already bs r

pub data WriteOutcome : Type 0 where
  written : Written → WriteOutcome
  waits : WriteOutcome

-- `write`, from `already` bytes on; `waits` when the list of rounds ends first.
unfoldable pub write_loop : ℕ → List ℕ → PipeRingBuffer → List Round → WriteOutcome
write_loop already bs r [] = elim (write_pass already bs r false) [
  | stop w ↦ written w
  | round _ _ _ ↦ WriteOutcome.waits
]
write_loop already bs r (n ∷ ns) = elim (write_pass already bs r n.signal) [
  | stop w ↦ written w
  | round already' left _ ↦ write_loop already' left n.next ns
]

unfoldable pub write : List ℕ → PipeRingBuffer → List Round → WriteOutcome
unfolding write_loop
write bs r rounds = write_loop 0 bs r rounds
