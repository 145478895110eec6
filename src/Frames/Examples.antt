-- ===== src/Frames/Examples.antt =====
-- The theorems on page frames, applied to an allocator of 128 pages.
use os.Base.{ℕ, ◌+◌, ◌%◌, ◌≤◌, ◌≡◌, refl, some, List, [], ◌∷◌, arith, within}
use os.Frames.{
  page_4k, num_pages, StackFrameAllocator, init, alloc, alloc_std, dealloc, free_frames,
}
use os.Frames.Pool.{Frame, held, IsValid, init-IsValid}
use os.Frames.Unique.{alloc-IsValid}
use os.Frames.Dealloc.{dealloc-IsValid, dealloc-untouched}

abbrev one_taken : StackFrameAllocator
one_taken = record (init 128 256) { current = 129 }

abbrev first : Frame
first = record { ppn = 128; page_size = page_4k }

init-IsValid_here : IsValid 128 (init 128 256) []
init-IsValid_here = init-IsValid 128 256 (omega arith) (omega arith)

alloc_here : alloc (init 128 256) page_4k ≡ some (128, one_taken)
unfolding alloc alloc_std init
alloc_here = refl

alloc-IsValid_example :
    IsValid 128 one_taken (first ∷ [])
    × (128 % num_pages page_4k ≡ 0)
    × ((p : ℕ) → within 128 (128 + num_pages page_4k) p + held p [] ≤ 1)
alloc-IsValid_example = alloc-IsValid (init 128 256) page_4k init-IsValid_here alloc_here

one_taken-IsValid : IsValid 128 one_taken (first ∷ [])
one_taken-IsValid = (alloc-IsValid (init 128 256) page_4k init-IsValid_here alloc_here).0

dealloc-IsValid_example :
    (b : StackFrameAllocator) × (dealloc one_taken 128 page_4k ≡ some b)
    × IsValid 128 b []
    × (free_frames b ≡ free_frames one_taken + num_pages page_4k)
dealloc-IsValid_example = dealloc-IsValid one_taken [] [] first one_taken-IsValid

dealloc-untouched_example :
    (b : StackFrameAllocator) × (dealloc one_taken 200 page_4k ≡ some b)
    × ((held_now : List Frame) → ¬ IsValid 128 b held_now)
unfolding init
dealloc-untouched_example =
    dealloc-untouched one_taken (first ∷ []) 200 one_taken-IsValid (omega arith) (omega arith)
