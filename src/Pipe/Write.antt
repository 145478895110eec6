-- ===== src/Pipe/Write.antt =====
-- What `write_nonblock` and `write` of os/src/fs/pipe.rs do.
use os.Base.{
  ℕ, zero, suc, ◌≤◌, ◌≡◌, refl, ap, sym, ◌∙◌, min, Bool, ◌+◌, true, false, List, [], ◌∷◌, ◌++◌,
  arith, length, ◌==◌, append_assoc, append-nil, length-append,
}
use os.Pipe.Ring.{PipeRingBuffer, write_byte, available_write}
use os.Pipe.Refine.{
  IsValid, contents, available_read-length, available-sum, write_byte-IsValid, write_byte_refines,
}
use os.Pipe.Io.{
  ok, Written, write_burst, Round, written, write, write_loop, write_pass, room_pass, stop,
}

-- A burst of writes: a prefix of the bytes joins the end of the queue.
pub record Puts (rounds : ℕ) (bs : List ℕ) (r : PipeRingBuffer) (left : List ℕ)
    (r' : PipeRingBuffer) : Type 0 where
  pub done : List ℕ
  pub valid : IsValid r'
  pub split : bs ≡ done ++ left
  pub put : contents r' ≡ contents r ++ done
  pub count : length done ≡ min rounds (length bs)
  pub ends : r'.read_ends_closed ≡ r.read_ends_closed

ends-write_byte :
    (r : PipeRingBuffer) (b : ℕ) → (write_byte r b).read_ends_closed ≡ r.read_ends_closed
unfolding write_byte
ends-write_byte r b = refl

write_burst-Puts :
    (rounds : ℕ) (bs : List ℕ) (r : PipeRingBuffer)
    → IsValid r
    → rounds ≤ available_write r
    → let (left, r') = write_burst rounds bs r in Puts rounds bs r left r'
unfolding write_burst
write_burst-Puts zero bs r v h = record {
  done = [];
  valid = v;
  split = refl;
  put = sym (append-nil (contents r));
  count = omega arith;
  ends = refl;
}
write_burst-Puts (suc rounds) [] r v h = record {
  done = [];
  valid = v;
  split = refl;
  put = sym (append-nil (contents r));
  count = omega arith;
  ends = refl;
}
write_burst-Puts (suc rounds) (b ∷ bs) r v h =
    let r' = write_byte r b in
    let first = write_byte_refines r b v (omega arith) in
    let v' = write_byte-IsValid r b v in
    let room : rounds ≤ available_write r' = omega (
      arith,
      available-sum r v,
      available-sum r' v',
      available_read-length r,
      available_read-length r',
      ap length first,
      length-append (contents r) (b ∷ []),
    ) in
    let t = write_burst-Puts rounds bs r' v' room in
    record {
      done = b ∷ t.done;
      valid = t.valid;
      split = ap (λ l. b ∷ l) t.split;
      put = t.put ∙ ap (λ l. l ++ t.done) first ∙ append_assoc (contents r) (b ∷ []) t.done;
      count = omega (arith, t.count);
      ends = t.ends ∙ ends-write_byte r b;
    }

nothing_left : (xs : List ℕ) → length xs ≡ 0 → xs ≡ []
nothing_left [] h = refl
nothing_left (x ∷ xs) h = absurd (omega arith)

-- A `write` of at least one byte for which the ring has room, while a read end is open, does not wait,
-- whatever would happen in a wait: it appends all the bytes, in order, and returns their number.
pub write-all :
    (b : ℕ) (rest : List ℕ) (r : PipeRingBuffer) (rounds : List Round)
    → IsValid r
    → r.read_ends_closed ≡ false
    → length (b ∷ rest) ≤ available_write r
    → (r' : PipeRingBuffer) × (write (b ∷ rest) r rounds
        ≡ written (record {
          answer = ok (length (b ∷ rest));
          ring = r';
          wakes_readers = true;
          sigpipe = false;
        }))
      × IsValid r'
      × (contents r' ≡ contents r ++ (b ∷ rest))
unfolding write write_loop write_pass room_pass
write-all b rest r rounds v open_now h =
    (r', ends rounds, t.valid, t.put ∙ ap (λ l. contents r ++ l) all)
  where
    bs : List ℕ
    bs = b ∷ rest

    left : List ℕ
    left = (write_burst (available_write r) bs r).0

    r' : PipeRingBuffer
    r' = (write_burst (available_write r) bs r).1

    t : Puts (available_write r) bs r left r'
    t = write_burst-Puts (available_write r) bs r v (omega arith)

    empty_left : left ≡ []
    empty_left =
        nothing_left left (omega (arith, t.count, ap length t.split, length-append t.done left))

    all : t.done ≡ bs
    all = sym (append-nil t.done) ∙ (ap (λ l. t.done ++ l) (sym empty_left) ∙ sym t.split)

    burst : write_burst (available_write r) bs r ≡ ([], r')
    burst = ap (λ l. (l, r')) empty_left

    some_room : (available_write r == 0) ≡ false
    some_room = ground arith

    w : Written
    w = record { answer = ok (length bs); ring = r'; wakes_readers = true; sigpipe = false }

    pass : (signal : Bool) → write_pass 0 bs r signal ≡ stop w
    pass signal =
        let counted : 0 + length bs ≡ length bs = omega arith in
        rw (some_room, write_pass, burst, counted, open_now) refl

    ends : (rounds : List Round) → write bs r rounds ≡ written w
    ends [] = rw (write, pass false, write_loop) refl
    ends (n ∷ ns) = rw (write, pass n.signal, write_loop) refl
