-- ===== src/Frames/Pool.antt =====
-- The invariant of the page allocator of os/src/mm/frame_allocator.rs, and the loop of
-- `recycle_range` under it.
use os.Base.{
  ℕ, zero, suc, ◌+◌, ◌-◌, ◌*◌, ◌%◌, ◌≤◌, ◌<◌, ◌≡◌, refl, List, [], ◌∷◌, arith, within, covers,
  length, ltb, Bool-cases, inl, inr, ltb→lt, ◌∙◌,
}
use os.Frames.{
  PageSize, num_pages, size, ppn_limit, StackFrameAllocator, init, mega_pages, giga_pages,
  recycle_at, recycle_loop, recycle_range, free_frames,
}
use os.Frames.Blocks.{Aligned, within-add}

-- A frame that the allocator handed out and that is not dropped yet.
pub record Frame : Type 0 where
  pub ppn : ℕ
  pub page_size : PageSize

-- How many of the held frames contain page `p`.
unfoldable pub held : ℕ → List Frame → ℕ
held p [] = 0
held p (f ∷ fs) = within f.ppn (f.ppn + num_pages f.page_size) p + held p fs

abbrev pub AllAligned : List Frame → Type 0
AllAligned [] = Unit {0}
AllAligned (f ∷ fs) = (f.ppn % num_pages f.page_size ≡ 0) × AllAligned fs

-- How many recycled blocks contain page `p`.
unfoldable pub recycled_at : StackFrameAllocator → ℕ → ℕ
recycled_at a p =
    covers 1 p a.recycled_std
    + covers mega_pages p a.recycled_mega
    + covers giga_pages p a.recycled_giga

unfoldable pub recycled_pages : StackFrameAllocator → ℕ
recycled_pages a =
    length a.recycled_std
    + length a.recycled_mega * mega_pages
    + length a.recycled_giga * giga_pages

-- Every page of [start, end) is at one place: in one recycled block, above the bump pointer, or in
-- one held frame. Blocks lie at multiples of their size.
pub record IsValid (start : ℕ) (a : StackFrameAllocator) (live : List Frame) : Type 0 where
  pub begun : start ≤ a.current
  pub room : a.current ≤ a.end
  pub fits : a.end ≤ ppn_limit
  pub once :
      (p : ℕ) → recycled_at a p + within a.current a.end p + held p live ≡ within start a.end p
  pub mega_aligned : Aligned mega_pages a.recycled_mega
  pub giga_aligned : Aligned giga_pages a.recycled_giga
  pub live_aligned : AllAligned live

pub free_frames_lem :
    (a : StackFrameAllocator) → free_frames a ≡ (a.end - a.current) + recycled_pages a
unfolding free_frames num_pages size recycled_pages
free_frames_lem a = omega arith

-- `init` leaves the whole range unallocated, with nobody holding a frame.
pub init-IsValid : (l r : ℕ) → l ≤ r → r ≤ ppn_limit → IsValid l (init l r) []
unfolding init held recycled_at covers
init-IsValid l r h k = record {
  begun = omega arith;
  room = h;
  fits = k;
  once = λ p. omega arith;
  mega_aligned = tt;
  giga_aligned = tt;
  live_aligned = tt;
}

-- What `recycle_range` does to an allocator: the pages [pos, end) join the recycled blocks.
pub record Recycles (a : StackFrameAllocator) (pos end : ℕ) (b : StackFrameAllocator) : Type 0 where
  pub current : b.current ≡ a.current
  pub end_kept : b.end ≡ a.end
  pub adds : (p : ℕ) → recycled_at b p ≡ recycled_at a p + within pos end p
  pub pages : recycled_pages b ≡ recycled_pages a + (end - pos)
  pub mega_aligned : Aligned mega_pages a.recycled_mega → Aligned mega_pages b.recycled_mega
  pub giga_aligned : Aligned giga_pages a.recycled_giga → Aligned giga_pages b.recycled_giga

recycle_at-Recycles :
    (a : StackFrameAllocator) (pos end : ℕ)
    → pos < end
    → let (step, b) = recycle_at a pos end in
      Recycles a pos (pos + step) b × (0 < step) × (pos + step ≤ end)
unfolding recycle_at recycled_at recycled_pages covers
recycle_at-Recycles a pos end h = (
  record {
    current = ground arith;
    end_kept = ground arith;
    adds = λ p. ground arith;
    pages = ground arith;
    mega_aligned = λ k. ground arith;
    giga_aligned = λ k. ground arith;
  },
  ground arith,
  ground arith,
)

Recycles-none :
    (a : StackFrameAllocator) (pos end : ℕ) → pos ≤ end → end ≤ pos → Recycles a pos end a
Recycles-none a pos end h k = record {
  current = refl;
  end_kept = refl;
  adds = λ p. ground arith;
  pages = omega arith;
  mega_aligned = λ m. m;
  giga_aligned = λ m. m;
}

Recycles-trans :
    {a b c : StackFrameAllocator} (pos mid end : ℕ)
    → pos ≤ mid
    → mid ≤ end
    → Recycles a pos mid b
    → Recycles b mid end c
    → Recycles a pos end c
Recycles-trans pos mid end h k r s = record {
  current = s.current ∙ r.current;
  end_kept = s.end_kept ∙ r.end_kept;
  adds = λ p. omega (arith, r.adds p, s.adds p, within-add pos mid end p h k);
  pages = omega (arith, r.pages, s.pages);
  mega_aligned = λ m. s.mega_aligned (r.mega_aligned m);
  giga_aligned = λ m. s.giga_aligned (r.giga_aligned m);
}

recycle_loop-Recycles :
    (fuel : ℕ) (a : StackFrameAllocator) (pos end : ℕ)
    → pos ≤ end
    → end ≤ pos + fuel
    → Recycles a pos end (recycle_loop fuel a pos end)
unfolding recycle_loop
recycle_loop-Recycles zero a pos end h k = Recycles-none a pos end h (omega arith)
recycle_loop-Recycles (suc fuel) a pos end h k = elim (Bool-cases (ltb pos end)) [
  | inl more ↦
      let (first, moves, inside) = recycle_at-Recycles a pos end (ltb→lt pos end more) in
      let (step, b) = recycle_at a pos end in
      rw (more, recycle_loop)
        (Recycles-trans pos (pos + step) end (omega arith) inside first
          (recycle_loop-Recycles fuel b (pos + step) end inside (omega arith)))
  | inr done ↦ rw (done, recycle_loop) (Recycles-none a pos end h (ground arith))
]

-- `recycle_range` moves exactly the pages [pos, end) into the recycled blocks, and keeps every
-- block at a multiple of its size.
pub recycle_range-Recycles :
    (a : StackFrameAllocator) (pos end : ℕ)
    → pos ≤ end
    → Recycles a pos end (recycle_range a pos end)
unfolding recycle_range
recycle_range-Recycles a pos end h = recycle_loop-Recycles (end - pos) a pos end h (omega arith)
