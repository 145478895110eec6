-- ===== src/Sync/Futex/Order.antt =====
-- Which waiters os/src/process/scheduler/futex.rs wakes and moves, and in which order.
use os.Base.{
  ℕ, zero, suc, ◌+◌, ◌<◌, min, ◌≡◌, ◌≢◌, refl, ap, sym, ◌∙◌, Bool, true, false, not, Option, none,
  some, List, [], ◌∷◌, ◌++◌, ◌==◌, if◌then◌else◌, Bool-cases, inl, inr, if_cases, option_split,
  list_split, length, take, drop, length-take, length-drop, append-nil, append_assoc, arith,
}
use mathlib.Core.Path.{subst, fun_ext, ap₂}
use os.Ipc.Table.{lookup}
use os.Sync.Futex.{
  Store, put, entry, detach, attach, pop_matching, wake_futex_waiters, wake_front, move_front,
  requeue_futex_waiters,
}
use os.Sync.Futex.Queue.{put_self, put_ne, put_twice}
use Prim.Native.Nat.{bit_and}

abbrev pub hit : (ℕ → ℕ) → ℕ → ℕ → Bool
hit bits mask w = not (bit_and (bits w) mask == 0)

-- The first `n` waiters whose bitsets meet `mask`, and all others, both in order.
unfoldable pub choose : (ℕ → ℕ) → ℕ → ℕ → List ℕ → List ℕ × List ℕ
choose bits mask zero ws = ([], ws)
choose bits mask (suc n) [] = ([], [])
choose bits mask (suc n) (w ∷ ws) =
    let (woken, left) = choose bits mask n ws in
    let (later, passed) = choose bits mask (suc n) ws in
    if hit bits mask w then (w ∷ woken, left) else (later, w ∷ passed)

choose_miss :
    (bits : ℕ → ℕ) (mask n v : ℕ) (ws : List ℕ)
    → hit bits mask v ≡ false
    → choose bits mask n (v ∷ ws) ≡ ((choose bits mask n ws).0, v ∷ (choose bits mask n ws).1)
unfolding choose
choose_miss bits mask zero v ws e = refl
choose_miss bits mask (suc n) v ws e = rw e refl

-- What a search means for the choice.
abbrev Chosen : (ℕ → ℕ) → ℕ → ℕ → List ℕ → Option (ℕ × List ℕ) → Type 0
Chosen bits mask n ws none = choose bits mask (suc n) ws ≡ ([], ws)
Chosen bits mask n ws (some (w, rest)) =
    choose bits mask (suc n) ws ≡ (w ∷ (choose bits mask n rest).0, (choose bits mask n rest).1)

pop_matching-Chosen :
    (bits : ℕ → ℕ) (mask n : ℕ) (ws : List ℕ) → Chosen bits mask n ws (pop_matching bits mask ws)
unfolding pop_matching choose
pop_matching-Chosen bits mask n [] = refl
pop_matching-Chosen bits mask n (v ∷ ws) =
    if_cases (Chosen bits mask n (v ∷ ws)) (hit bits mask v) (λ e. rw e refl)
      (λ e. later e (pop_matching bits mask ws) (pop_matching-Chosen bits mask n ws))
  where
    later :
        hit bits mask v ≡ false
        → (o : Option (ℕ × List ℕ)) → Chosen bits mask n ws o
        → Chosen bits mask n
            (v ∷ ws)
            (elim o [ none ↦ none | some (w, others) ↦ some (w, v ∷ others) ])
    later e none h = rw (e, h) refl
    later e (some (w, others)) h = rw (e, h, choose_miss bits mask n v others e) refl

put_same : (f : ℕ → List ℕ) (i : ℕ) → f ≡ put f i (f i)
put_same f i = fun_ext (λ j. elim (Bool-cases (j == i)) [
  | inl e ↦ let same : j ≡ i = ground (arith, e) in rw e (ap f same)
  | inr e ↦ rw e refl
])

-- `wake_futex_waiters` takes the first `count` waiters of the queue whose bitset meets the mask, or all of
-- them if there are fewer, and leaves the others in their order; other queues, the map and the
-- bitsets stay as they are.
pub wake_futex_waiters_lem :
    (count : ℕ) (s : Store) (q mask : ℕ)
    → ((wake_futex_waiters count s q mask).0 ≡ (choose s.bitset mask count (s.contents q)).0)
      × ((wake_futex_waiters count s q mask).1.contents
          ≡ put s.contents q (choose s.bitset mask count (s.contents q)).1)
      × ((wake_futex_waiters count s q mask).1.queues ≡ s.queues)
      × ((wake_futex_waiters count s q mask).1.bitset ≡ s.bitset)
unfolding wake_futex_waiters detach choose
wake_futex_waiters_lem zero s q mask = (refl, put_same s.contents q, refl, refl)
wake_futex_waiters_lem (suc n) s q mask =
    option_split P (pop_matching s.bitset mask (s.contents q))
      (λ e. rw (chosen e) (refl, put_same s.contents q, refl, refl))
      (λ (w, rest) e.
        let (f, g, h, k) = wake_futex_waiters_lem n (detach s w q rest) q mask in
        let same = put_self s.contents q rest in
        (
          ap (λ ws. w ∷ ws) (rw same at f) ∙ ap (λ r. r.0) (sym (chosen e)),
          rw same at g
              ∙ (put_twice s.contents q rest (choose s.bitset mask n rest).1
                  ∙ ap (λ r. put s.contents q r.1) (sym (chosen e))),
          h,
          k,
        ))
  where
    P : List ℕ × Store → Type 0
    P r =
        (r.0 ≡ (choose s.bitset mask (suc n) (s.contents q)).0)
        × (r.1.contents ≡ put s.contents q (choose s.bitset mask (suc n) (s.contents q)).1)
        × (r.1.queues ≡ s.queues)
        × (r.1.bitset ≡ s.bitset)

    chosen :
        {o : Option (ℕ × List ℕ)}
        → pop_matching s.bitset mask (s.contents q) ≡ o
        → Chosen s.bitset mask n (s.contents q) o
    chosen e =
        subst (Chosen s.bitset mask n (s.contents q)) e
          (pop_matching-Chosen s.bitset mask n (s.contents q))

-- `wake_front` takes the first waiters of a queue, and touches no other.
wake_front_lem :
    (n : ℕ) (s : Store) (q : ℕ)
    → ((wake_front n s q).0 ≡ take n (s.contents q))
      × ((wake_front n s q).1.contents ≡ put s.contents q (drop n (s.contents q)))
unfolding wake_front detach take drop
wake_front_lem zero s q = (refl, put_same s.contents q)
wake_front_lem (suc n) s q =
    list_split P (s.contents q) (λ e. rw e (refl, put_same s.contents q ∙ ap (put s.contents q) e))
      (λ w rest e.
        let (f, g) = wake_front_lem n (detach s w q rest) q in
        let same = put_self s.contents q rest in
        rw e (
          ap (λ ws. w ∷ ws) (rw same at f),
          rw same at g ∙ put_twice s.contents q rest (drop n rest),
        ))
  where
    P : List ℕ × Store → Type 0
    P r =
        (r.0 ≡ take (suc n) (s.contents q))
        × (r.1.contents ≡ put s.contents q (drop (suc n) (s.contents q)))

-- `move_front` moves the first waiters of a queue to the end of another.
move_front_lem :
    (n : ℕ) (s : Store) (src key dst : ℕ)
    → src ≢ dst
    → ((move_front n s src key dst).0 ≡ min n (length (s.contents src)))
      × ((move_front n s src key dst).1.contents src ≡ drop n (s.contents src))
      × ((move_front n s src key dst).1.contents dst ≡ s.contents dst ++ take n (s.contents src))
unfolding move_front attach take drop
move_front_lem zero s src key dst ne = (omega arith, refl, sym (append-nil (s.contents dst)))
move_front_lem (suc n) s src key dst ne =
    list_split P (s.contents src) (λ e. rw e (omega arith, refl, sym (append-nil (s.contents dst))))
      (λ w rest e.
        let taken : ℕ → List ℕ = put s.contents src rest in
        let from : put taken dst (taken dst ++ (w ∷ [])) src ≡ rest =
          put_ne taken dst (taken dst ++ (w ∷ [])) ne ∙ put_self s.contents src rest in
        let to : put taken dst (taken dst ++ (w ∷ [])) dst ≡ s.contents dst ++ (w ∷ []) =
          put_self taken dst (taken dst ++ (w ∷ []))
          ∙ ap (λ ws. ws ++ (w ∷ [])) (put_ne s.contents src rest (λ h. ne (sym h))) in
        let (f, g, h) =
          move_front_lem n (attach (record s { contents = taken }) w key dst) src key dst ne in
        rw e (
          omega (arith, f, ap length from),
          g ∙ ap (drop n) from,
          h
              ∙ (ap₂ (λ xs ys. xs ++ take n ys) to from
                  ∙ append_assoc (s.contents dst) (w ∷ []) (take n rest)),
        ))
  where
    P : ℕ × Store → Type 0
    P r =
        (r.0 ≡ min (suc n) (length (s.contents src)))
        × (r.1.contents src ≡ drop (suc n) (s.contents src))
        × (r.1.contents dst ≡ s.contents dst ++ take (suc n) (s.contents src))

-- If the check says so, at least one waiter may move, and two different queues stand in the map under the
-- keys, then `requeue_futex_waiters` wakes the first `wake_count` waiters of the source, moves the next
-- `requeue_count` to the end of the destination, in their order, and returns how many these are.
pub requeue_futex_waiters_lem :
    (s : Store) (src_key dst_key wake_count requeue_count src dst : ℕ)
    → 0 < requeue_count
    → src ≢ dst
    → lookup s.queues src_key ≡ some src
    → lookup s.queues dst_key ≡ some dst
    → let waiters : List ℕ = s.contents src in
      let result = requeue_futex_waiters s src_key dst_key wake_count requeue_count true in
      (result.0 ≡ some (min (wake_count + requeue_count) (length waiters)))
      × (result.1 ≡ take wake_count waiters)
      × (result.2.contents src ≡ drop requeue_count (drop wake_count waiters))
      × (result.2.contents dst ≡ s.contents dst ++ take requeue_count (drop wake_count waiters))
unfolding requeue_futex_waiters entry
requeue_futex_waiters_lem s src_key dst_key wake_count requeue_count src dst more ne e f =
    let several : (requeue_count == 0) ≡ false = ground (arith, more) in
    let apart : (src == dst) ≡ false = ground (arith, ne) in
    let (woken, left) = wake_front_lem wake_count s src in
    let (moved, g, h) =
      move_front_lem requeue_count (wake_front wake_count s src).1 src dst_key dst ne in
    let here : (wake_front wake_count s src).1.contents src ≡ drop wake_count (s.contents src) =
      ap (λ c. c src) left ∙ put_self s.contents src (drop wake_count (s.contents src)) in
    let there : (wake_front wake_count s src).1.contents dst ≡ s.contents dst =
      ap (λ c. c dst) left
      ∙ put_ne s.contents src (drop wake_count (s.contents src)) (λ p. ne (sym p)) in
    rw (e, f, several, apart, requeue_futex_waiters, entry)
      (
        ap some (
            omega (
              arith,
              ap length woken,
              moved,
              ap length here,
              length-take wake_count (s.contents src),
              length-drop wake_count (s.contents src),
            )),
        woken,
        g ∙ ap (drop requeue_count) here,
        h ∙ ap₂ (λ xs ys. xs ++ take requeue_count ys) there here,
      )
