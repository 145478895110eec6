-- ===== src/Pipe/Ring.antt =====
-- `PipeRingBuffer` of os/src/fs/pipe.rs. The page frames are lists of bytes, which are only moved; a
-- frame index out of range, a panic in the source, cannot occur in a valid ring. The weak
-- references to the two ends are only asked whether they are dead.
use os.Base.{
  ℕ, ◌+◌, ◌-◌, ◌*◌, ◌/◌, ◌%◌, Bool, true, false, List, [], ltb, ◌==◌, if◌then◌else◌, get_or, set,
  replicate,
}

abbrev pub pipe_buf_page_size : ℕ
pipe_buf_page_size = 4096

abbrev pub pipe_buf_pages : ℕ
pipe_buf_pages = 16

abbrev pub ring_buffer_size : ℕ
ring_buffer_size = pipe_buf_page_size * pipe_buf_pages

pub data RingBufferStatus : Type 0 where
  full empty normal : RingBufferStatus

pub record PipeRingBuffer : Type 0 where
  pub frames : List (List ℕ)
  pub head : ℕ
  pub tail : ℕ
  pub status : RingBufferStatus
  pub write_ends_closed : Bool
  pub read_ends_closed : Bool

unfoldable pub new : PipeRingBuffer
new = record {
  frames = replicate 16 (replicate pipe_buf_page_size 0);
  head = 0;
  tail = 0;
  status = empty;
  write_ends_closed = false;
  read_ends_closed = false;
}

-- `get_byte_mut` for a read, and for a write
unfoldable pub get_byte : List (List ℕ) → ℕ → ℕ
get_byte frames index =
    get_or (get_or frames (index / pipe_buf_page_size) []) (index % pipe_buf_page_size) 0

unfoldable pub set_byte : List (List ℕ) → ℕ → ℕ → List (List ℕ)
set_byte frames index byte =
    set frames (index / pipe_buf_page_size)
      (set (get_or frames (index / pipe_buf_page_size) []) (index % pipe_buf_page_size) byte)

unfoldable pub write_byte : PipeRingBuffer → ℕ → PipeRingBuffer
write_byte r byte =
    let tail' : ℕ = (r.tail + 1) % ring_buffer_size in
    record r {
      frames = set_byte r.frames r.tail byte;
      tail = tail';
      status = (if tail' == r.head then full else normal);
    }

unfoldable pub read_byte : PipeRingBuffer → ℕ × PipeRingBuffer
read_byte r =
    let head' : ℕ = (r.head + 1) % ring_buffer_size in
    (
      get_byte r.frames r.head,
      record r { head = head'; status = (if head' == r.tail then empty else normal) },
    )

-- The test `tail > head`, else the distance round the end of the ring.
abbrev pub distance : ℕ → ℕ → ℕ
distance head tail = if ltb head tail then tail - head else tail + ring_buffer_size - head

abbrev pub is_empty : RingBufferStatus → Bool
is_empty empty = true
is_empty _ = false

abbrev pub is_full : RingBufferStatus → Bool
is_full full = true
is_full _ = false

unfoldable pub available_read : PipeRingBuffer → ℕ
available_read r = if is_empty r.status then 0 else distance r.head r.tail

unfoldable pub available_write : PipeRingBuffer → ℕ
unfolding available_read
available_write r = if is_full r.status then 0 else ring_buffer_size - available_read r
