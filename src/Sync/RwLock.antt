-- ===== src/Sync/RwLock.antt =====
-- os/src/sync/rw.rs: the spinning read-write lock that prefers writers, an atomic access at a time.
-- Threads interleave in any order over one lock; every access is sequentially consistent. The
-- counters do not reach the ends of `isize`.
pub mod Invariant
pub mod Safety
mod Examples
use os.Base.{ℕ, ◌+◌, ◌<◌, ◌≡◌, ◌≢◌, List, [], ◌∷◌, Option, some, get_elem?, set, replicate}
use os.Base.Int.{ℤ, pos, negsuc, inc, dec}

-- `RwLock::state` and `RwLock::asked_write`
pub record Lock : Type 0 where
  pub state : ℤ
  pub asked_write : ℤ

abbrev pub new : Lock
new = record { state = pos 0; asked_write = pos 0 }

-- Where a thread stands, with the local that is live there.
pub data Pc : Type 0 where
  idle : Pc  -- holds no guard
  read_loop : Pc  -- the head of the loop of `read`
  read_loaded : (state : ℤ) → Pc  -- `state` is loaded
  read_checked : (state : ℕ) → Pc  -- the state seen is not negative; before the compare-exchange of `read`
  read_taken : Pc  -- the reader is counted, before the second look at `asked_write`
  read_back : Pc  -- before the count is taken back
  reading : Pc  -- a `RwLockReadGuard`
  write_loop : Pc  -- the head of the loop of `write`
  write_loaded : (state : ℤ) → Pc
  write_free : Pc  -- before the compare-exchange of `write`
  write_taken : Pc  -- the lock is taken, before `asked_write` goes down
  writing : Pc  -- a `RwLockWriteGuard`

-- One step of one thread.
pub data Move (m : Lock) : Pc → Lock → Pc → Type 0 where
  read : Move m idle m read_loop
  load : Move m read_loop m (read_loaded m.state)
  spin_held : {n : ℕ} → Move m (read_loaded (negsuc n)) m read_loop
  spin_asked : {n : ℕ} → m.asked_write ≢ pos 0 → Move m (read_loaded (pos n)) m read_loop
  check : {n : ℕ} → m.asked_write ≡ pos 0 → Move m (read_loaded (pos n)) m (read_checked n)
  cas_lost : {n : ℕ} → m.state ≢ pos n → Move m (read_checked n) m read_loop
  cas_won :
      {n : ℕ}
      → m.state ≡ pos n
      → Move m (read_checked n) (record m { state = pos (n + 1) }) read_taken
  recheck_clear : m.asked_write ≡ pos 0 → Move m read_taken m reading
  recheck_asked : m.asked_write ≢ pos 0 → Move m read_taken m read_back
  back_off : Move m read_back (record m { state = dec m.state }) read_loop
  drop_read : Move m reading (record m { state = dec m.state }) idle
  write : Move m idle (record m { asked_write = inc m.asked_write }) write_loop
  load_write : Move m write_loop m (write_loaded m.state)
  spin_write : {s : ℤ} → s ≢ pos 0 → Move m (write_loaded s) m write_loop
  see_free : {s : ℤ} → s ≡ pos 0 → Move m (write_loaded s) m write_free
  take_lost : m.state ≢ pos 0 → Move m write_free m write_loop
  take_won : m.state ≡ pos 0 → Move m write_free (record m { state = negsuc 0 }) write_taken
  unask : Move m write_taken (record m { asked_write = dec m.asked_write }) writing
  drop_write : Move m writing (record m { state = pos 0 }) idle
  downgrade : Move m writing (record m { state = pos 1 }) reading

pub record System : Type 0 where
  pub lock : Lock
  pub pcs : List Pc

pub data Step (s : System) : System → Type 0 where
  pick :
      (i : ℕ) {p p' : Pc} {m : Lock}
      → get_elem? s.pcs i ≡ some p
      → Move s.lock p m p'
      → Step s (record { lock = m; pcs = set s.pcs i p' })

abbrev pub start : ℕ → System
start threads = record { lock = new; pcs = replicate threads idle }

pub data Reach (threads : ℕ) : System → Type 0 where
  begin : Reach threads (start threads)
  next : {s t : System} → Reach threads s → Step s t → Reach threads t
