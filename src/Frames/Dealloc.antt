-- ===== src/Frames/Dealloc.antt =====
-- `dealloc` of os/src/mm/frame_allocator.rs, and what its check for a double release misses.
use os.Base.{
  ℕ, ◌+◌, ◌%◌, ◌≤◌, ◌<◌, ◌≡◌, refl, List, [], ◌∷◌, ◌++◌, arith, within, covers, true, some,
  contains-covers,
}
use os.Frames.{
  PageSize, page_4k, page_2m, page_1g, num_pages, size, StackFrameAllocator, mega_pages, giga_pages,
  already_freed, recycle, dealloc, free_frames,
}
use os.Frames.Pool.{Frame, held, AllAligned, recycled_at, IsValid}

held-append : (p : ℕ) (fs gs : List Frame) → held p (fs ++ gs) ≡ held p fs + held p gs
unfolding held
held-append p [] gs = omega arith
held-append p (f ∷ fs) gs = omega (arith, held-append p fs gs)

held-cons :
    (p : ℕ) (f : Frame) (fs : List Frame)
    → held p (f ∷ fs) ≡ within f.ppn (f.ppn + num_pages f.page_size) p + held p fs
unfolding held
held-cons p f fs = refl

recycle-IsValid :
    {start : ℕ} (a : StackFrameAllocator) (live : List Frame) (ppn : ℕ) (s : PageSize)
    → ((p : ℕ)
        → recycled_at a p
            + within a.current a.end p
            + (within ppn (ppn + num_pages s) p + held p live)
          ≡ within start a.end p)
    → ppn % num_pages s ≡ 0
    → AllAligned live
    → {extra : List Frame} → IsValid start a extra
    → IsValid start (recycle a ppn s) live
unfolding recycle num_pages size recycled_at covers
recycle-IsValid a live ppn page_4k once h k v = record {
  begun = v.begun;
  room = v.room;
  fits = v.fits;
  once = λ p. ground (arith, once p);
  mega_aligned = v.mega_aligned;
  giga_aligned = v.giga_aligned;
  live_aligned = k;
}
recycle-IsValid a live ppn page_2m once h k v = record {
  begun = v.begun;
  room = v.room;
  fits = v.fits;
  once = λ p. ground (arith, once p);
  mega_aligned = (h, v.mega_aligned);
  giga_aligned = v.giga_aligned;
  live_aligned = k;
}
recycle-IsValid a live ppn page_1g once h k v = record {
  begun = v.begun;
  room = v.room;
  fits = v.fits;
  once = λ p. ground (arith, once p);
  mega_aligned = v.mega_aligned;
  giga_aligned = (h, v.giga_aligned);
  live_aligned = k;
}

free_frames-recycle :
    (a : StackFrameAllocator) (ppn : ℕ) (s : PageSize)
    → free_frames (recycle a ppn s) ≡ free_frames a + num_pages s
unfolding free_frames recycle num_pages size
free_frames-recycle a ppn page_4k = omega arith
free_frames-recycle a ppn page_2m = omega arith
free_frames-recycle a ppn page_1g = omega arith

AllAligned-middle :
    (before : List Frame) (f : Frame) (after : List Frame)
    → AllAligned (before ++ (f ∷ after))
    → (f.ppn % num_pages f.page_size ≡ 0) × AllAligned (before ++ after)
AllAligned-middle [] f after h = h
AllAligned-middle (g ∷ before) f after h =
    let rest = AllAligned-middle before f after h.1 in (rest.0, (h.0, rest.1))

recycled_at-recycle :
    (a : StackFrameAllocator) (ppn : ℕ) (s : PageSize) (p : ℕ)
    → recycled_at (recycle a ppn s) p ≡ recycled_at a p + within ppn (ppn + num_pages s) p
unfolding recycled_at recycle covers num_pages size
recycled_at-recycle a ppn page_4k p = omega arith
recycled_at-recycle a ppn page_2m p = omega arith
recycled_at-recycle a ppn page_1g p = omega arith

already_freed-recycled_at :
    (a : StackFrameAllocator) (ppn : ℕ) (s : PageSize)
    → already_freed a ppn s ≡ true
    → 0 < recycled_at a ppn
unfolding recycled_at already_freed
already_freed-recycled_at a ppn page_4k e =
    omega (arith, contains-covers 1 a.recycled_std ppn (omega arith) e)
already_freed-recycled_at a ppn page_2m e =
    omega (arith, contains-covers mega_pages a.recycled_mega ppn (omega arith) e)
already_freed-recycled_at a ppn page_1g e =
    omega (arith, contains-covers giga_pages a.recycled_giga ppn (omega arith) e)

num_pages_pos : (s : PageSize) → 0 < num_pages s
unfolding num_pages size
num_pages_pos page_4k = omega arith
num_pages_pos page_2m = omega arith
num_pages_pos page_1g = omega arith

-- The drop of a held frame does not panic: the frame joins the recycled blocks, its pages count as
-- free again, and every page still has one owner.
pub dealloc-IsValid :
    {start : ℕ} (a : StackFrameAllocator) (before after : List Frame) (f : Frame)
    → IsValid start a (before ++ (f ∷ after))
    → (b : StackFrameAllocator) × (dealloc a f.ppn f.page_size ≡ some b)
      × IsValid start b (before ++ after)
      × (free_frames b ≡ free_frames a + num_pages f.page_size)
unfolding dealloc
dealloc-IsValid {start} a before after f v = (recycle a f.ppn f.page_size, succeeds, valid, counted)
  where
    owner :
        (p : ℕ)
        → recycled_at a p
            + within a.current a.end p
            + (held p before + (within f.ppn (f.ppn + num_pages f.page_size) p + held p after))
          ≡ within start a.end p
    owner p = omega (arith, v.once p, held-append p before (f ∷ after), held-cons p f after)

    succeeds : dealloc a f.ppn f.page_size ≡ some (recycle a f.ppn f.page_size)
    succeeds = ground (
      arith,
      owner f.ppn,
      num_pages_pos f.page_size,
      already_freed-recycled_at a f.ppn f.page_size,
    )

    aligned : (f.ppn % num_pages f.page_size ≡ 0) × AllAligned (before ++ after)
    aligned = AllAligned-middle before f after v.live_aligned

    valid : IsValid start (recycle a f.ppn f.page_size) (before ++ after)
    valid =
        recycle-IsValid a (before ++ after) f.ppn f.page_size
          (λ p. omega (arith, owner p, held-append p before after)) aligned.0 aligned.1 v

    counted : free_frames (recycle a f.ppn f.page_size) ≡ free_frames a + num_pages f.page_size
    counted = free_frames-recycle a f.ppn f.page_size

-- The check for a release of a page that is not held looks at one stack and at the end only. The
-- release of any standard page above the bump pointer, which was never handed out, succeeds, and
-- after it no set of held frames makes the allocator valid: the page is free twice.
pub dealloc-untouched :
    {start : ℕ} (a : StackFrameAllocator) (live : List Frame) (ppn : ℕ)
    → IsValid start a live
    → a.current ≤ ppn
    → ppn < a.end
    → (b : StackFrameAllocator) × (dealloc a ppn page_4k ≡ some b)
      × ((held_now : List Frame) → ¬ IsValid start b held_now)
unfolding dealloc recycle
dealloc-untouched {start} a live ppn v h k = (
  recycle a ppn page_4k,
  ground (arith, v.once ppn, already_freed-recycled_at a ppn page_4k),
  λ held_now w.
      absurd
        (ground (arith, w.once ppn, recycled_at-recycle a ppn page_4k ppn, num_pages_pos page_4k)),
)
