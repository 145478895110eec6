-- ===== src/Sync/Futex.antt =====
-- os/src/process/scheduler/futex.rs: the wait queues of futexes. Waiters and queues are numbered, as
-- their `Arc`s are told apart by address. A store keeps what the queues and the `location`s hold, and
-- the global map from keys to queues. Each function holds the locks of the map or of the queues it
-- works on, so it is one step. A `Weak` that upgrades and a strong count are arguments.
pub mod Queue
pub mod Invariant
pub mod Keys
pub mod Steps
pub mod Reach
pub mod Order
mod Examples
use os.Base.{
  ℕ, zero, suc, ◌+◌, min, ◌≡◌, Bool, true, false, not, ◌&&◌, Option, none, some, List, [], ◌∷◌,
  ◌++◌, ◌==◌, if◌then◌else◌, length, count,
}
use os.Ipc.Table.{lookup, insert, delete}
use Prim.Native.Nat.{bit_and}

pub record Store : Type 0 where
  pub queues : List (ℕ × ℕ)  -- `FUTEX_WAIT_QUEUES`: a queue for a key
  pub contents : ℕ → List ℕ  -- the waiters of a queue
  pub location : ℕ → Option (ℕ × ℕ)  -- the key and the queue of a waiter
  pub bitset : ℕ → ℕ
  pub fresh : ℕ  -- the queues from here on were never made

abbrev pub put {ℓ} : {A : Type ℓ} → (ℕ → A) → ℕ → A → ℕ → A
put f i v j = if j == i then v else f j

-- `queues.entry(key).or_insert_with(..)`: the queue of a key, made if there is none.
unfoldable pub entry : Store → ℕ → ℕ × Store
entry s key = elim (lookup s.queues key) [
  | some q ↦ (q, s)
  | none ↦ (
    s.fresh,
    record s {
      queues = insert s.queues key s.fresh;
      contents = put s.contents s.fresh [];
      fresh = s.fresh + 1;
    },
  )
]

-- A waiter leaves queue `q`, of which `rest` remains: `clear_location_while_queued`.
unfoldable pub detach : Store → ℕ → ℕ → List ℕ → Store
detach s w q rest = record s { contents = put s.contents q rest; location = put s.location w none }

-- `set_location_while_queued` and `push_back`
unfoldable pub attach : Store → ℕ → ℕ → ℕ → Store
attach s w key q = record s {
  contents = put s.contents q (s.contents q ++ (w ∷ []));
  location = put s.location w (some (key, q));
}

-- The first waiter whose bitset meets `mask`, and the others.
unfoldable pub pop_matching : (ℕ → ℕ) → ℕ → List ℕ → Option (ℕ × List ℕ)
pop_matching bits mask [] = none
pop_matching bits mask (w ∷ ws) =
    let rest = pop_matching bits mask ws in
    if not (bit_and (bits w) mask == 0)
    then some (w, ws)
    else elim rest [ none ↦ none | some (v, others) ↦ some (v, w ∷ others) ]

-- Without the first entry of a waiter, which must be there.
unfoldable pub remove_waiter : ℕ → List ℕ → Option (List ℕ)
remove_waiter w [] = none
remove_waiter w (v ∷ vs) =
    let rest = remove_waiter w vs in
    if v == w then some vs else elim rest [ none ↦ none | some others ↦ some (v ∷ others) ]

-- `block_current_on_futex_if` for a new waiter `w`, until it sleeps. `should_block` is what the
-- check under the locks says.
unfoldable pub block_current_on_futex_if : Store → ℕ → ℕ → Bool → Store
block_current_on_futex_if s key w should_block =
    let (q, s') = entry s key in
    if should_block
    then attach s' w key q
    else (if length (s'.contents q) == 0 then record s' { queues = delete s'.queues key } else s')

-- The waiters that `wake_futex_waiters` takes out of the queue and then wakes, in order.
unfoldable pub wake_futex_waiters : ℕ → Store → ℕ → ℕ → List ℕ × Store
wake_futex_waiters zero s q mask = ([], s)
wake_futex_waiters (suc n) s q mask = elim (pop_matching s.bitset mask (s.contents q)) [
  | none ↦ ([], s)
  | some (w, rest) ↦
      let (woken, s') = wake_futex_waiters n (detach s w q rest) q mask in (w ∷ woken, s')
]

-- `wake_count` times `pop_front` to wake
unfoldable pub wake_front : ℕ → Store → ℕ → List ℕ × Store
wake_front zero s q = ([], s)
wake_front (suc n) s q = elim (s.contents q) [
  | [] ↦ ([], s)
  | w ∷ rest ↦ let (woken, s') = wake_front n (detach s w q rest) q in (w ∷ woken, s')
]

-- `requeue_count` times `pop_front` of one queue and `push_back` on the other; how many moved.
unfoldable pub move_front : ℕ → Store → ℕ → ℕ → ℕ → ℕ × Store
move_front zero s src dst_key dst = (0, s)
move_front (suc n) s src dst_key dst = elim (s.contents src) [
  | [] ↦ (0, s)
  | w ∷ rest ↦
      let (moved, s') =
        move_front n (attach (record s { contents = put s.contents src rest }) w dst_key dst) src
          dst_key dst in
      (moved + 1, s')
]

-- The waiters to wake, and the number of those woken and moved, or `none` for an error.
-- `should_requeue` is what the check under the locks says.
unfoldable pub requeue_futex_waiters : Store → ℕ → ℕ → ℕ → ℕ → Bool → Option ℕ × List ℕ × Store
requeue_futex_waiters s src_key dst_key wake_count requeue_count should_requeue =
    elim (lookup s.queues src_key) [
      | none ↦ ((if should_requeue then some 0 else none), [], s)
      | some src ↦
          if requeue_count == 0
          then (if should_requeue
              then (let (woken, s1) = wake_front wake_count s src in
                  (some (length woken), woken, s1))
              else (none, [], s))
          else (let (dst, s0) = entry s dst_key in
              if not should_requeue
              then (none, [], s0)
              else (let (woken, s1) = wake_front wake_count s0 src in
                  if src == dst
                  then (
                    some (length woken + min requeue_count (length (s1.contents src))),
                    woken,
                    s1,
                  )
                  else (let (moved, s2) = move_front requeue_count s1 src dst_key dst in
                      (some (length woken + moved), woken, s2))))
    ]

-- `retire_futex_wait_queue_if_unused`, with the strong count of the queue in the map.
unfoldable pub retire_futex_wait_queue_if_unused : Store → ℕ → ℕ → ℕ → Store
retire_futex_wait_queue_if_unused s key queue strong_count = elim (lookup s.queues key) [
  | none ↦ s
  | some current ↦
      if current == queue && (strong_count == 2 && (length (s.contents current) == 0))
      then record s { queues = delete s.queues key }
      else s
]

unfoldable pub retire_futex_wait_queue_by_key_if_unused : Store → ℕ → ℕ → Store
retire_futex_wait_queue_by_key_if_unused s key strong_count = elim (lookup s.queues key) [
  | none ↦ s
  | some current ↦
      if strong_count == 2 && (length (s.contents current) == 0)
      then record s { queues = delete s.queues key }
      else s
]

-- How the part of a turn of `remove_futex_waiter` under the lock of the queue ends.
pub data Attempt : Type 0 where
  removed : ℕ → ℕ → Attempt  -- the key and the queue
  gone : Attempt
  missed : Attempt

-- A turn that read the location (key, q) before it took the lock of `q`.
unfoldable pub remove_futex_waiter : Store → ℕ → ℕ → ℕ → Bool → Attempt × Store
remove_futex_waiter s w key q upgrades =
    if not upgrades then (gone, s) else elim (remove_waiter w (s.contents q)) [
      | some rest ↦ (removed key q, detach s w q rest)
      | none ↦ (missed, s)
    ]

-- What the same turn finds when it reads the location again, after it has dropped the lock: other
-- threads may have run in between.
pub data Recheck : Type 0 where
  left_queue : Recheck
  again : Recheck
  assertion_fails : Recheck

unfoldable pub recheck_location : Store → ℕ → ℕ → ℕ → Recheck
recheck_location s w key q = elim (s.location w) [
  | none ↦ left_queue
  | some (key', q') ↦ if key' == key && q' == q then assertion_fails else again
]
