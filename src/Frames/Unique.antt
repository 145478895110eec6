-- ===== src/Frames/Unique.antt =====
-- `alloc` of os/src/mm/frame_allocator.rs: every page keeps one owner, and the count of free
-- pages falls by the size that was asked for.
use os.Base.{
  ℕ, ◌+◌, ◌-◌, ◌*◌, ◌/◌, ◌%◌, ◌≤◌, ◌<◌, ◌≡◌, List, [], ◌∷◌, arith, covers, within, ltb, Bool-cases,
  inl, inr, none, some, ltb→lt,
}
use mathlib.Core.Path.{subst}
use os.Frames.{
  PageSize, page_4k, page_2m, page_1g, num_pages, size, ppn_limit, StackFrameAllocator, mega_pages,
  giga_pages, to_ppn, split_into, push_units, alloc_std, alloc_fresh, alloc_mega, alloc_giga, alloc,
  free_frames, Alloc,
}
use os.Frames.Blocks.{Aligned}
use os.Frames.Pool.{Frame, held, recycled_at, recycled_pages, IsValid, free_frames_lem}
use os.Frames.Alloc.{
  Takes, below_end, take_std, take_mega, take_giga, take_split_mega, Takes-unpacked,
  unpacked-Aligned, take_fresh, take_bump,
}

abbrev Granted : StackFrameAllocator → ℕ → Alloc → Type 0
Granted a pages none = Unit {0}
Granted a pages (some (ppn, b)) = Takes a ppn pages b

alloc_fresh-Granted :
    (a : StackFrameAllocator) (pages : ℕ)
    → a.current ≤ (a.current + pages - 1) / pages * pages
    → (a.current + pages - 1) / pages * pages % pages ≡ 0
    → 0 < pages
    → a.end ≤ ppn_limit
    → Aligned mega_pages a.recycled_mega
    → Aligned giga_pages a.recycled_giga
    → Granted a pages (alloc_fresh pages a)
unfolding alloc_fresh
alloc_fresh-Granted a pages h k pos fits m g =
    let aligned : ℕ = (a.current + pages - 1) / pages * pages in
    elim (Bool-cases (ltb a.end (aligned + pages))) [
      | inl full ↦ rw full tt
      | inr fit ↦
          let inside : aligned + pages ≤ a.end = ground arith in
          let same : to_ppn aligned ≡ aligned = omega arith in
          rw (fit, same) (take_fresh a aligned pages h k inside m g)
    ]

module _ {start : ℕ} {live : List Frame} where
  std_Granted :
      (c e : ℕ) (stds megas gigas : List ℕ)
      → let a : StackFrameAllocator = record {
        current = c;
        end = e;
        recycled_std = stds;
        recycled_mega = megas;
        recycled_giga = gigas;
      } in
        IsValid start a live → Granted a 1 (alloc_std a)
  unfolding alloc_std split_into recycled_at covers recycled_pages
  std_Granted c e (b ∷ stds) megas gigas v =
      rw (below_end b v (ground arith))
        (take_std c e b stds megas gigas v.room v.mega_aligned v.giga_aligned)
  std_Granted c e [] (b ∷ megas) gigas v =
      rw (below_end b v (ground arith))
        (take_split_mega c e b [] megas gigas v.room v.mega_aligned v.giga_aligned)
  std_Granted c e [] [] [] v = elim (Bool-cases (ltb c e)) [
    | inl more ↦
        let same : to_ppn c ≡ c = ground (arith, v.fits) in
        rw (more, same) (take_bump _ (ltb→lt c e more) tt tt)
    | inr full ↦ rw full tt
  ]
  std_Granted c e [] [] (b ∷ gigas) v = elim (Bool-cases (ltb c e)) [
    | inl more ↦
        let same : to_ppn c ≡ c = ground (arith, v.fits) in
        rw (more, same) (take_bump _ (ltb→lt c e more) tt v.giga_aligned)
    | inr full ↦
        let parts = unpacked-Aligned b [] v.giga_aligned.0 tt in
        rw (full, below_end b v (ground arith))
          (Takes-unpacked c e b b 1 [] [] gigas (
            take_split_mega c e b [] (push_units b mega_pages 1 511 []) gigas v.room parts
              v.giga_aligned.1))
  ]

  mega_Granted :
      (c e : ℕ) (stds megas gigas : List ℕ)
      → let a : StackFrameAllocator = record {
        current = c;
        end = e;
        recycled_std = stds;
        recycled_mega = megas;
        recycled_giga = gigas;
      } in
        IsValid start a live → Granted a mega_pages (alloc_mega a)
  unfolding alloc_mega split_into recycled_at covers recycled_pages
  mega_Granted c e stds (b ∷ megas) gigas v =
      rw (below_end b v (ground arith))
        (take_mega c e b stds megas gigas v.room v.mega_aligned v.giga_aligned)
  mega_Granted c e stds [] (b ∷ gigas) v =
      let parts = unpacked-Aligned b [] v.giga_aligned.0 tt in
      rw (below_end b v (ground arith)) (
        Takes-unpacked c e b b mega_pages stds [] gigas (
          take_mega c e b stds (push_units b mega_pages 1 511 []) gigas v.room parts
            v.giga_aligned.1))
  mega_Granted c e stds [] [] v =
      alloc_fresh-Granted _ mega_pages (omega arith) (omega arith) (omega arith) v.fits tt tt

  giga_Granted :
      (c e : ℕ) (stds megas gigas : List ℕ)
      → let a : StackFrameAllocator = record {
        current = c;
        end = e;
        recycled_std = stds;
        recycled_mega = megas;
        recycled_giga = gigas;
      } in
        IsValid start a live → Granted a giga_pages (alloc_giga a)
  unfolding alloc_giga recycled_at covers
  giga_Granted c e stds megas (b ∷ gigas) v =
      rw (below_end b v (ground arith))
        (take_giga c e b stds megas gigas v.room v.mega_aligned v.giga_aligned)
  giga_Granted c e stds megas [] v =
      alloc_fresh-Granted _ giga_pages (omega arith) (omega arith) (omega arith) v.fits
        v.mega_aligned tt

alloc-Granted :
    {start : ℕ} {live : List Frame} (a : StackFrameAllocator) (s : PageSize)
    → IsValid start a live
    → Granted a (num_pages s) (alloc a s)
unfolding alloc num_pages size
alloc-Granted a page_4k v =
    std_Granted a.current a.end a.recycled_std a.recycled_mega a.recycled_giga v
alloc-Granted a page_2m v =
    mega_Granted a.current a.end a.recycled_std a.recycled_mega a.recycled_giga v
alloc-Granted a page_1g v =
    giga_Granted a.current a.end a.recycled_std a.recycled_mega a.recycled_giga v

alloc-Takes :
    {start : ℕ} {live : List Frame} (a : StackFrameAllocator) (s : PageSize) {ppn : ℕ}
    {b : StackFrameAllocator}
    → IsValid start a live
    → alloc a s ≡ some (ppn, b)
    → Takes a ppn (num_pages s) b
alloc-Takes a s v e = subst (Granted a (num_pages s)) e (alloc-Granted a s v)

-- What `alloc` hands out is a block at a multiple of its size, of pages that no held frame
-- contains; with it as one more held frame the allocator is valid again: every page of its range
-- has one owner.
pub alloc-IsValid :
    {start : ℕ} {live : List Frame} (a : StackFrameAllocator) (s : PageSize) {ppn : ℕ}
    {b : StackFrameAllocator}
    → IsValid start a live
    → alloc a s ≡ some (ppn, b)
    → IsValid start b (record { ppn = ppn; page_size = s } ∷ live)
      × (ppn % num_pages s ≡ 0)
      × ((p : ℕ) → within ppn (ppn + num_pages s) p + held p live ≤ 1)
unfolding held
alloc-IsValid a s {ppn} v e =
    let t = alloc-Takes a s v e in
    (
      record {
        begun = omega (arith, v.begun, t.grows);
        room = t.room;
        fits = omega (arith, v.fits, t.end_kept);
        once = λ p. ground (arith, t.fresh p, v.once p, t.end_kept);
        mega_aligned = t.mega_aligned;
        giga_aligned = t.giga_aligned;
        live_aligned = (t.aligned, v.live_aligned);
      },
      t.aligned,
      λ p. ground (arith, t.fresh p, v.once p),
    )

-- A successful `alloc` lowers `free_frames` by exactly the pages of the size asked for.
pub free_frames-alloc :
    {start : ℕ} {live : List Frame} (a : StackFrameAllocator) (s : PageSize) {ppn : ℕ}
    {b : StackFrameAllocator}
    → IsValid start a live
    → alloc a s ≡ some (ppn, b)
    → free_frames b + num_pages s ≡ free_frames a
free_frames-alloc a s {b = b} v e =
    omega (arith, (alloc-Takes a s v e).fewer, free_frames_lem a, free_frames_lem b)

-- A standard page is refused only when no page is free at all: 1G and 2M blocks are split first.
pub alloc_std-eq-none :
    (a : StackFrameAllocator) → a.current ≤ a.end → alloc a page_4k ≡ none → free_frames a ≡ 0
unfolding alloc alloc_std free_frames num_pages size
alloc_std-eq-none a h e = empty a.current a.end a.recycled_std a.recycled_mega a.recycled_giga h e
  where
    empty :
        (c e : ℕ) (stds megas gigas : List ℕ)
        → let a : StackFrameAllocator = record {
          current = c;
          end = e;
          recycled_std = stds;
          recycled_mega = megas;
          recycled_giga = gigas;
        } in
          c ≤ e → alloc a page_4k ≡ none → free_frames a ≡ 0
    empty c e (b ∷ stds) megas gigas h k = cc
    empty c e [] (b ∷ megas) gigas h k = cc
    empty c e [] [] (b ∷ gigas) h k = absurd (ground arith)
    empty c e [] [] [] h k = ground arith
