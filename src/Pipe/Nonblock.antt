-- ===== src/Pipe/Nonblock.antt =====
-- What `write_nonblock` of os/src/fs/pipe.rs does, while the read ends may be closed at any time.
use os.Base.{
  ℕ, zero, suc, ◌+◌, ◌-◌, ◌≤◌, ◌<◌, ◌≡◌, ◌⊎◌, refl, ap, sym, ◌∙◌, min, Bool, true, false, List, [],
  ◌∷◌, ◌++◌, arith, length, ltb, ◌==◌, if◌then◌else◌, if_cases, Bool-cases, inl, inr, append_assoc,
  append-nil, length-append,
}
use mathlib.Core.Path.{subst}
use os.Pipe.Ring.{PipeRingBuffer, write_byte, available_write}
use os.Pipe.Refine.{
  IsValid, contents, available_read-length, available-sum, write_byte-IsValid, write_byte_refines,
}
use os.Pipe.Io.{
  ok, err, e_again, e_pipe, Written, write_until_closed, end_burst, write_room, write_nonblock,
}

-- How many of the next `n` tests, from test `i` on, come before the first that finds the read ends
-- closed.
unfoldable pub first_closed : (ℕ → Bool) → ℕ → ℕ → ℕ
first_closed closed i zero = 0
first_closed closed i (suc n) =
    let rest = first_closed closed (i + 1) n in if closed i then 0 else suc rest

-- A prefix of the bytes joins the end of the queue, up to where the read ends are closed.
record Puts (closed : ℕ → Bool) (i rounds : ℕ) (bs : List ℕ) (r : PipeRingBuffer)
    (end : Bool × (List ℕ × PipeRingBuffer)) : Type 0 where
  done : List ℕ
  valid : IsValid end.1.1
  split : bs ≡ done ++ end.1.0
  put : contents end.1.1 ≡ contents r ++ done
  count : length done ≡ first_closed closed i (min rounds (length bs))
  hit : end.0 ≡ ltb (length done) (min rounds (length bs))

no_Puts :
    (closed : ℕ → Bool) (i rounds : ℕ) (bs : List ℕ) (r : PipeRingBuffer)
    → IsValid r
    → min rounds (length bs) ≡ 0
    → Puts closed i rounds bs r (false, (bs, r))
unfolding first_closed
no_Puts closed i rounds bs r v e = record {
  done = [];
  valid = v;
  split = refl;
  put = sym (append-nil (contents r));
  count = rw e refl;
  hit = rw e refl;
}

write_until_closed-Puts :
    (closed : ℕ → Bool) (i rounds : ℕ) (bs : List ℕ) (r : PipeRingBuffer)
    → IsValid r
    → rounds ≤ available_write r
    → Puts closed i rounds bs r (write_until_closed closed i rounds bs r)
unfolding write_until_closed first_closed
write_until_closed-Puts closed i zero bs r v h = no_Puts closed i zero bs r v (omega arith)
write_until_closed-Puts closed i (suc rounds) [] r v h =
    no_Puts closed i (suc rounds) [] r v (omega arith)
write_until_closed-Puts closed i (suc rounds) (b ∷ bs) r v h = elim (Bool-cases (closed i)) [
  | inl e ↦
      rw (e, write_until_closed)
        (record {
          done = [];
          valid = v;
          split = refl;
          put = sym (append-nil (contents r));
          count = rw (one_more, e) refl;
          hit = rw one_more (ground arith);
        })
  | inr e ↦
      let r' = write_byte r b in
      let first = write_byte_refines r b v (omega arith) in
      let v' = write_byte-IsValid r b v in
      let room : rounds ≤ available_write r' = omega (
        arith,
        available-sum r v,
        available-sum r' v',
        available_read-length r,
        available_read-length r',
        ap length first,
        length-append (contents r) (b ∷ []),
      ) in
      let t = write_until_closed-Puts closed (i + 1) rounds bs r' v' room in
      rw (e, write_until_closed)
        (record {
          done = b ∷ t.done;
          valid = t.valid;
          split = ap (λ l. b ∷ l) t.split;
          put = t.put ∙ ap (λ l. l ++ t.done) first ∙ append_assoc (contents r) (b ∷ []) t.done;
          count = rw (one_more, e) (ap suc t.count);
          hit = t.hit ∙ rw one_more (ground arith);
        })
]
  where
    one_more : min (suc rounds) (length (b ∷ bs)) ≡ suc (min rounds (length bs))
    one_more = omega arith

closed_at_once :
    (closed : ℕ → Bool) (rounds b : ℕ) (bs : List ℕ) (r : PipeRingBuffer)
    → closed 0 ≡ true
    → 0 < rounds
    → write_until_closed closed 0 rounds (b ∷ bs) r ≡ (true, (b ∷ bs, r))
unfolding write_until_closed
closed_at_once closed zero b bs r c h = absurd (omega arith)
closed_at_once closed (suc rounds) b bs r c h = rw (c, write_until_closed) refl

first_closed-positive :
    (closed : ℕ → Bool) (n : ℕ) → closed 0 ≡ false → 0 < n → 0 < first_closed closed 0 n
unfolding first_closed
first_closed-positive closed zero c h = absurd (omega arith)
first_closed-positive closed (suc n) c h = rw c (omega arith)

first_closed-le : (closed : ℕ → Bool) (i n : ℕ) → first_closed closed i n ≤ n
unfolding first_closed
first_closed-le closed i zero = omega arith
first_closed-le closed i (suc n) = ground (arith, first_closed-le closed (i + 1) n)

-- The outcomes of a write that does not wait: the pipe is broken, full, or takes a prefix `done`, of all
-- bytes that there is room for when no test finds the read ends closed.
abbrev pub Broken : (ℕ → Bool) → PipeRingBuffer → Written → Type 0
Broken closed r w =
    (closed 0 ≡ true)
    × (w.answer ≡ err e_pipe)
    × (w.ring ≡ r)
    × (w.sigpipe ≡ true)
    × (w.wakes_readers ≡ false)

abbrev pub Full : (ℕ → Bool) → PipeRingBuffer → Written → Type 0
Full closed r w =
    (closed 0 ≡ false)
    × (available_write r ≡ 0)
    × (w.answer ≡ err e_again)
    × (w.ring ≡ r)
    × (w.sigpipe ≡ false)
    × (w.wakes_readers ≡ false)

pub record Accepts (closed : ℕ → Bool) (bs : List ℕ) (r : PipeRingBuffer) (w : Written)
    : Type 0 where
  pub open_end : closed 0 ≡ false
  pub done : List ℕ
  pub left : List ℕ
  pub split : bs ≡ done ++ left
  pub count : length done ≡ first_closed closed 0 (min (available_write r) (length bs))
  pub some_done : 0 < length done
  pub answer : w.answer ≡ ok (length done)
  pub put : contents w.ring ≡ contents r ++ done
  pub no_signal : w.sigpipe ≡ false
  pub wakes : w.wakes_readers ≡ (length done == min (available_write r) (length bs))

-- `write_nonblock` of at least one byte, on every branch, whatever the test for closed read ends says
-- before each byte: when the first test finds them closed it fails with EPIPE and raises SIGPIPE; else
-- on a full ring it fails with EAGAIN; else it appends as many bytes of the buffer as there is room
-- for, in order, but only those before the first test that finds the read ends closed, and returns
-- their number, which is positive. It wakes the readers when no test stopped it, and only then. The ring
-- is valid afterwards, and unchanged by a failure.
pub write_nonblock_lem :
    (closed : ℕ → Bool) (b : ℕ) (rest : List ℕ) (r : PipeRingBuffer)
    → IsValid r
    → let w = write_nonblock closed (b ∷ rest) r in
      IsValid w.ring × (Broken closed r w ⊎ (Full closed r w ⊎ Accepts closed (b ∷ rest) r w))
unfolding write_nonblock write_room
write_nonblock_lem closed b rest r v =
    if_cases P (available_write r == 0)
      (λ e.
        if_cases P (closed 0) (λ c. (v, inl (c, refl, refl, refl, refl)))
          (λ c. (v, inr (inl (c, ground arith, refl, refl, refl, refl)))))
      (λ e. elim (Bool-cases (closed 0)) [
        | inl c ↦
            subst
              (λ (x : Bool × (List ℕ × PipeRingBuffer)).
                P (end_burst x.0 (length bs - length x.1.0) x.1.1))
              (sym (closed_at_once closed (available_write r) b rest r c (ground (arith, e))))
              (rw nothing_done (v, inl (c, refl, refl, refl, refl)))
        | inr c ↦ ended e c end.0 (length bs - length end.1.0) refl refl
      ])
  where
    bs : List ℕ
    bs = b ∷ rest

    P : Written → Type 0
    P w = IsValid w.ring × (Broken closed r w ⊎ (Full closed r w ⊎ Accepts closed bs r w))

    end : Bool × (List ℕ × PipeRingBuffer)
    end = write_until_closed closed 0 (available_write r) bs r

    t : Puts closed 0 (available_write r) bs r end
    t = write_until_closed-Puts closed 0 (available_write r) bs r v (omega arith)

    nothing_done : length bs - length bs ≡ 0
    nothing_done = omega arith

    all_of : length bs ≡ length t.done + length end.1.0
    all_of = ap length t.split ∙ length-append t.done end.1.0

    ended :
        (available_write r == 0) ≡ false
        → closed 0 ≡ false
        → (hit : Bool) (already : ℕ) → end.0 ≡ hit
        → length bs - length end.1.0 ≡ already
        → P (end_burst hit already end.1.1)
    ended e c hit already f g =
        let positive : 0 < length t.done = rw t.count (
          first_closed-positive closed (min (available_write r) (length bs)) c
            (ground (arith, e))) in
        let bound : length t.done ≤ min (available_write r) (length bs) =
          rw t.count (first_closed-le closed 0 (min (available_write r) (length bs))) in
        let told : ltb (length t.done) (min (available_write r) (length bs)) ≡ hit =
          sym t.hit ∙ f in
        finish hit already told (omega (arith, g, all_of)) positive bound
      where
        finish :
            (hit : Bool) (already : ℕ)
            → ltb (length t.done) (min (available_write r) (length bs)) ≡ hit
            → length t.done ≡ already
            → 0 < length t.done
            → length t.done ≤ min (available_write r) (length bs)
            → P (end_burst hit already end.1.1)
        finish true zero told g positive bound = absurd (omega (arith, g, positive))
        finish true (suc k) told g positive bound = (
          t.valid,
          inr (
              inr (record {
                open_end = c;
                done = t.done;
                left = end.1.0;
                split = t.split;
                count = t.count;
                some_done = positive;
                answer = ap ok (sym g);
                put = t.put;
                no_signal = refl;
                wakes = ground (arith, told);
              })),
        )
        finish false already told g positive bound = (
          t.valid,
          inr (
              inr (record {
                open_end = c;
                done = t.done;
                left = end.1.0;
                split = t.split;
                count = t.count;
                some_done = positive;
                answer = ap ok (sym g);
                put = t.put;
                no_signal = refl;
                wakes = ground (arith, told, g, positive, bound);
              })),
        )
