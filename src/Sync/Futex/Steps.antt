-- ===== src/Sync/Futex/Steps.antt =====
-- Every operation of os/src/process/scheduler/futex.rs keeps the invariant of its queues.
use os.Base.{
  ℕ, zero, suc, ◌<◌, ◌≡◌, ◌≢◌, refl, ap, sym, some_eq, ==_refl, ◌∙◌, Bool, not, ◌&&◌, Option, none,
  some, option_split, list_split, List, ◌∷◌, ◌==◌, if_cases, length, count, arith,
}
use mathlib.Core.Path.{subst, ap₂}
use os.Ipc.Table.{lookup}
use os.Sync.Futex.{
  Store, put, entry, detach, attach, block_current_on_futex_if, wake_futex_waiters, wake_front,
  move_front, requeue_futex_waiters, retire_futex_wait_queue_if_unused,
  retire_futex_wait_queue_by_key_if_unused, pop_matching, remove_waiter, Attempt, removed, gone,
  missed, remove_futex_waiter, Recheck, left_queue, again, assertion_fails, recheck_location,
}
use os.Sync.Futex.Queue.{
  put_self, put_twice, front-Without, pop_matching-Without, remove_waiter-Without,
  remove_waiter-none,
}
use os.Sync.Futex.Invariant.{at, Consistent, detach-Consistent, attach-Consistent}
use os.Sync.Futex.Keys.{entry-Consistent, delete-Consistent}

pub wake_futex_waiters-Consistent :
    (n : ℕ) (s : Store) (q mask : ℕ) → Consistent s → Consistent (wake_futex_waiters n s q mask).1
unfolding wake_futex_waiters
wake_futex_waiters-Consistent zero s q mask v = v
wake_futex_waiters-Consistent (suc n) s q mask v =
    option_split (λ (r : List ℕ × Store). Consistent r.1)
      (pop_matching s.bitset mask (s.contents q)) (λ _. v)
      (λ (w, rest) e.
        wake_futex_waiters-Consistent n (detach s w q rest) q mask
          (detach-Consistent s w q rest v (pop_matching-Without s.bitset mask (s.contents q) e)))

wake_front-Consistent : (n : ℕ) (s : Store) (q : ℕ) → Consistent s → Consistent (wake_front n s q).1
unfolding wake_front
wake_front-Consistent zero s q v = v
wake_front-Consistent (suc n) s q v =
    list_split (λ (r : List ℕ × Store). Consistent r.1) (s.contents q) (λ _. v)
      (λ w rest e.
        wake_front-Consistent n (detach s w q rest) q
          (detach-Consistent s w q rest v (rw e (front-Without w rest))))

wake_front-queues : (n : ℕ) (s : Store) (q : ℕ) → (wake_front n s q).1.queues ≡ s.queues
unfolding wake_front detach
wake_front-queues zero s q = refl
wake_front-queues (suc n) s q =
    list_split (λ (r : List ℕ × Store). r.1.queues ≡ s.queues) (s.contents q) (λ _. refl)
      (λ w rest e. wake_front-queues n (detach s w q rest) q)

-- A waiter that moves is as one that leaves and joins.
moved-Consistent :
    (s : Store) (w src key dst : ℕ) (rest : List ℕ)
    → Consistent s
    → s.contents src ≡ w ∷ rest
    → lookup s.queues key ≡ some dst
    → Consistent (attach (record s { contents = put s.contents src rest }) w key dst)
unfolding attach detach
moved-Consistent s w src key dst rest v e known =
    subst Consistent
      (ap
        (λ loc. record (attach (record s { contents = put s.contents src rest }) w key dst) {
          location = loc;
        })
        (put_twice s.location w none (some (key, dst))))
      (attach-Consistent (detach s w src rest) w key dst
        (detach-Consistent s w src rest v (rw e (front-Without w rest)))
        (put_self s.location w none) known)

move_front-Consistent :
    (n : ℕ) (s : Store) (src key dst : ℕ)
    → Consistent s
    → lookup s.queues key ≡ some dst
    → Consistent (move_front n s src key dst).1
unfolding move_front attach
move_front-Consistent zero s src key dst v known = v
move_front-Consistent (suc n) s src key dst v known =
    list_split (λ (r : ℕ × Store). Consistent r.1) (s.contents src) (λ _. v)
      (λ w rest e.
        move_front-Consistent n (attach (record s { contents = put s.contents src rest }) w key dst)
          src key dst (moved-Consistent s w src key dst rest v e known) known)

pub requeue_futex_waiters-Consistent :
    (s : Store) (src_key dst_key wake_count requeue_count : ℕ) (should_requeue : Bool)
    → Consistent s
    → Consistent (requeue_futex_waiters s src_key dst_key wake_count requeue_count should_requeue).2
unfolding requeue_futex_waiters
requeue_futex_waiters-Consistent s src_key dst_key wake_count requeue_count should_requeue v =
    option_split P (lookup s.queues src_key) (λ _. v)
      (λ src _.
        if_cases P (requeue_count == 0)
          (λ _. if_cases P should_requeue (λ _. wake_front-Consistent wake_count s src v) (λ _. v))
          (λ _.
            if_cases P (not should_requeue) (λ _. made.0)
              (λ _.
                if_cases P (src == (entry s dst_key).0)
                  (λ _. wake_front-Consistent wake_count (entry s dst_key).1 src made.0)
                  (λ _.
                    move_front-Consistent requeue_count
                      (wake_front wake_count (entry s dst_key).1 src).1 src dst_key
                      (entry s dst_key).0
                      (wake_front-Consistent wake_count (entry s dst_key).1 src made.0)
                      (ap (λ m. lookup m dst_key)
                          (wake_front-queues wake_count (entry s dst_key).1 src)
                        ∙ made.1)))))
  where
    P : Option ℕ × List ℕ × Store → Type 0
    P r = Consistent r.2

    made :
        Consistent (entry s dst_key).1
        × (lookup (entry s dst_key).1.queues dst_key ≡ some (entry s dst_key).0)
        × ((entry s dst_key).1.location ≡ s.location)
    made = entry-Consistent s dst_key v

-- A thread that blocks with a new waiter, or finds that it need not block.
pub block_current_on_futex_if-Consistent :
    (s : Store) (key w : ℕ) (should_block : Bool)
    → Consistent s
    → s.location w ≡ none
    → Consistent (block_current_on_futex_if s key w should_block)
unfolding block_current_on_futex_if
block_current_on_futex_if-Consistent s key w should_block v free =
    let (made, known, same) = entry-Consistent s key v in
    if_cases Consistent should_block
      (λ _.
        attach-Consistent (entry s key).1 w key (entry s key).0 made (ap (λ f. f w) same ∙ free)
          known)
      (λ _.
        if_cases Consistent (length ((entry s key).1.contents (entry s key).0) == 0)
          (λ e.
            delete-Consistent (entry s key).1 key (entry s key).0 made known (ground (arith, e)))
          (λ _. made))

pub retire_futex_wait_queue_if_unused-Consistent :
    (s : Store) (key queue strong_count : ℕ)
    → Consistent s
    → Consistent (retire_futex_wait_queue_if_unused s key queue strong_count)
unfolding retire_futex_wait_queue_if_unused
retire_futex_wait_queue_if_unused-Consistent s key queue strong_count v =
    option_split Consistent (lookup s.queues key) (λ _. v)
      (λ current e.
        if_cases Consistent
          (current == queue && (strong_count == 2 && (length (s.contents current) == 0)))
          (λ t. delete-Consistent s key current v e (ground (arith, t))) (λ _. v))

pub retire_futex_wait_queue_by_key_if_unused-Consistent :
    (s : Store) (key strong_count : ℕ)
    → Consistent s
    → Consistent (retire_futex_wait_queue_by_key_if_unused s key strong_count)
unfolding retire_futex_wait_queue_by_key_if_unused
retire_futex_wait_queue_by_key_if_unused-Consistent s key strong_count v =
    option_split Consistent (lookup s.queues key) (λ _. v)
      (λ current e.
        if_cases Consistent (strong_count == 2 && (length (s.contents current) == 0))
          (λ t. delete-Consistent s key current v e (ground (arith, t))) (λ _. v))

-- What `remove_futex_waiter` may end with under the lock of queue `q`, for waiter `w` and the store
-- before it.
abbrev pub Ends : Store → ℕ → ℕ → Attempt × Store → Type 0
Ends s w q (removed key p, s') =
    (p ≡ q)
    × (0 < count w (s.contents q))
    × (s'.location w ≡ none)
    × ((p : ℕ) → count w (s'.contents p) ≡ 0)
Ends s w q (gone, s') = s' ≡ s
Ends s w q (missed, s') = (s' ≡ s) × (count w (s.contents q) ≡ 0)

detach-location : (s : Store) (w q : ℕ) (rest : List ℕ) → (detach s w q rest).location w ≡ none
unfolding detach
detach-location s w q rest = put_self s.location w none

pub remove_futex_waiter-Ends :
    (s : Store) (w key q : ℕ) (upgrades : Bool)
    → Consistent s
    → Consistent (remove_futex_waiter s w key q upgrades).1
      × Ends s w q (remove_futex_waiter s w key q upgrades)
unfolding remove_futex_waiter
remove_futex_waiter-Ends s w key q upgrades v =
    if_cases P (not upgrades) (λ _. (v, refl))
      (λ _.
        option_split P (remove_waiter w (s.contents q))
          (λ e. (v, (refl, remove_waiter-none w (s.contents q) e)))
          (λ rest e.
            let without = remove_waiter-Without w (s.contents q) e in
            let left = detach-Consistent s w q rest v without in
            (
              left,
              (
                refl,
                ground (arith, without w),
                detach-location s w q rest,
                λ p. left.0 w p ∙ ap (λ o. at o p) (detach-location s w q rest),
              ),
            )))
  where
    P : Attempt × Store → Type 0
    P r = Consistent r.1 × Ends s w q r

-- What the second look at the location says of the store that it is made in.
abbrev pub Rechecks : Store → ℕ → ℕ → ℕ → Recheck → Type 0
Rechecks s w key q left_queue = (p : ℕ) → count w (s.contents p) ≡ 0
Rechecks s w key q again = s.location w ≢ some (key, q)
Rechecks s w key q assertion_fails = (s.location w ≡ some (key, q)) × (count w (s.contents q) ≡ 1)

pub recheck_location-Rechecks :
    (s : Store) (w key q : ℕ) → Consistent s → Rechecks s w key q (recheck_location s w key q)
unfolding recheck_location
recheck_location-Rechecks s w key q v =
    option_split (Rechecks s w key q) (s.location w) (λ e p. v.0 w p ∙ ap (λ o. at o p) e)
      (λ here e.
        if_cases (Rechecks s w key q) (here.0 == key && here.1 == q)
          (λ t.
            let found : s.location w ≡ some (key, q) =
              e ∙ ap₂ (λ k p. some (k, p)) (ground (arith, t)) (ground (arith, t)) in
            (found, v.0 w q ∙ ap (λ o. at o q) found ∙ rw (==_refl q) refl))
          (λ f g.
            let same : here ≡ (key, q) = some_eq (sym e ∙ g) in
            absurd (ground (arith, f, ap (λ (h : ℕ × ℕ). h.0) same, ap (λ (h : ℕ × ℕ). h.1) same))))
