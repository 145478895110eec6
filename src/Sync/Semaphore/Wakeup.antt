-- ===== src/Sync/Semaphore/Wakeup.antt =====
-- A wake-up of os/src/sync/semaphore.rs that comes before the thread it is meant for has queued up.
use os.Base.{
  ◌++◌, ◌+◌, arith, ℕ, ◌≡◌, ◌≢◌, ap, sym, ◌∙◌, [], ◌∷◌, some, get_elem?, set, get_elem?-set_found,
  get_elem?-set_ne,
}
use os.Base.Int.{pos, inc, dec}
use os.Base.Sums.{total, total-set}
use os.Sync.Semaphore.Safety.{as_holder, as_waker}
use os.Sync.Semaphore.{
  Step, idle, asked, queued, holding, waking, System, lock_none, enqueue, unlock_wake, wake_nobody,
  Reach, next,
}

-- The steps by which a wake-up is lost: `j` asks, `i` drops its guard and finds nobody, `j` queues up.
pub record LostWakeup (permits threads k i j : ℕ) (s : System) : Type 0 where
  pub lowered : System
  pub raised : System
  pub dropped : System
  pub last : System
  pub asks : Step s lowered
  pub drops : Step lowered raised
  pub finds_nobody : Step raised dropped
  pub queues_up : Step dropped last
  pub reachable : Reach permits threads k last
  pub count_last : last.count ≡ pos 0
  pub queue_last : last.queue ≡ j ∷ []
  pub first_idle : get_elem? last.pcs i ≡ some idle
  pub other_queued : get_elem? last.pcs j ≡ some queued
  pub holders : total as_holder last.pcs + 1 ≡ total as_holder s.pcs
  pub wakers : total as_waker last.pcs ≡ total as_waker s.pcs

-- From any reachable state in which one thread holds a guard, no permit is free, the queue is empty and
-- another thread is idle, four steps lead to a state that is reachable too: the other thread lowers the
-- count, the first raises it and looks for a thread to wake, finds none and is idle, and only then the
-- other queues up. After them the count is 0 again, the other thread sleeps in the queue, one thread
-- less holds a guard, and as many threads as before are about to wake another.
pub lost_wakeup :
    {permits threads k : ℕ} {s : System} (i j : ℕ)
    → Reach permits threads k s
    → i ≢ j
    → get_elem? s.pcs i ≡ some holding
    → get_elem? s.pcs j ≡ some idle
    → s.count ≡ pos 0
    → s.queue ≡ []
    → LostWakeup permits threads k i j s
lost_wakeup {s = s} i j r ne held other none_free nobody =
    let ne' : j ≢ i = λ e. ne (sym e) in
    let p1 = set s.pcs j asked in
    let p2 = set p1 i waking in
    let p3 = set p2 i idle in
    let held1 = get_elem?-set_ne s.pcs j i asked ne' ∙ held in
    let waking2 = get_elem?-set_found p1 i waking held1 in
    let idle3 = get_elem?-set_found p2 i idle waking2 in
    let asked1 = get_elem?-set_found s.pcs j asked other in
    let asked2 = get_elem?-set_ne p1 i j waking ne ∙ asked1 in
    let asked3 = get_elem?-set_ne p2 i j idle ne ∙ asked2 in
    let first = lock_none j other none_free in
    let second = unlock_wake i 0 held1 (ap dec none_free) in
    let third = wake_nobody i waking2 nobody in
    let fourth = enqueue j asked3 in
    record {
      lowered = _;
      raised = _;
      dropped = _;
      last = _;
      asks = first;
      drops = second;
      finds_nobody = third;
      queues_up = fourth;
      reachable = next (next (next (next r first) second) third) fourth;
      count_last = ap (λ c. inc (dec c)) none_free;
      queue_last = ap (λ q. q ++ (j ∷ [])) nobody;
      first_idle = get_elem?-set_ne p3 j i queued ne' ∙ idle3;
      other_queued = get_elem?-set_found p3 j queued asked3;
      holders = omega (
        arith,
        total-set as_holder s.pcs j asked other,
        total-set as_holder p1 i waking held1,
        total-set as_holder p2 i idle waking2,
        total-set as_holder p3 j queued asked3,
      );
      wakers = omega (
        arith,
        total-set as_waker s.pcs j asked other,
        total-set as_waker p1 i waking held1,
        total-set as_waker p2 i idle waking2,
        total-set as_waker p3 j queued asked3,
      );
    }
