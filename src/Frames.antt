-- ===== src/Frames.antt =====
-- os/src/mm/frame_allocator.rs: physical page frames of three sizes, from a bump pointer and three
-- stacks of recycled blocks (each list has the end of the `Vec` first). Page numbers count
-- standard pages. A panic is `none`.
pub mod Blocks
pub mod Pool
mod Alloc
pub mod Unique
pub mod Dealloc
mod Examples
use os.Base.{
  ℕ, zero, suc, ◌+◌, ◌-◌, ◌*◌, ◌/◌, ◌%◌, ◌^◌, Bool, true, false, ◌&&◌, ◌||◌, Option, none, some,
  List, [], ◌∷◌, ltb, leb, ◌==◌, if◌then◌else◌, contains, length,
}

-- `PageSize` of os/src/mm/page_table.rs
pub data PageSize : Type 0 where
  page_4k page_2m page_1g : PageSize

pub size : PageSize → ℕ
size page_4k = 2 ^ 12
size page_2m = 2 ^ (12 + 9)
size page_1g = 2 ^ (12 + 9 + 9)

abbrev pub page_bytes : ℕ
page_bytes = 0x1000

unfoldable pub num_pages : PageSize → ℕ
unfolding size
num_pages s = size s / page_bytes

-- `PhysPageNum::from(usize)` keeps PA_WIDTH - PAGE_SIZE_BITS = 56 - 12 bits (RISC-V).
abbrev pub ppn_limit : ℕ
ppn_limit = 2 ^ (56 - 12)

abbrev pub to_ppn : ℕ → ℕ
to_ppn v = v % ppn_limit

pub record StackFrameAllocator : Type 0 where
  pub current : ℕ
  pub end : ℕ
  pub recycled_std : List ℕ
  pub recycled_mega : List ℕ
  pub recycled_giga : List ℕ

pub init : ℕ → ℕ → StackFrameAllocator
init l r = record {
  current = l;
  end = r;
  recycled_std = [];
  recycled_mega = [];
  recycled_giga = [];
}

abbrev pub mega_pages : ℕ
mega_pages = 512

abbrev pub giga_pages : ℕ
giga_pages = 262144

-- One round of the loop of `recycle_range`: the page block at `pos` goes to the stack of the
-- largest size that fits there, and the width of the block is the step.
pub recycle_at : StackFrameAllocator → ℕ → ℕ → ℕ × StackFrameAllocator
recycle_at a pos end =
    if pos % giga_pages == 0 && leb giga_pages (end - pos)
    then (giga_pages, record a { recycled_giga = pos ∷ a.recycled_giga })
    else (if pos % mega_pages == 0 && leb mega_pages (end - pos)
        then (mega_pages, record a { recycled_mega = pos ∷ a.recycled_mega })
        else (1, record a { recycled_std = pos ∷ a.recycled_std }))

-- The loop with fuel; `end - pos` rounds are enough, since each moves on by a page or more.
pub recycle_loop : ℕ → StackFrameAllocator → ℕ → ℕ → StackFrameAllocator
recycle_loop zero a pos end = a
recycle_loop (suc fuel) a pos end = elim (ltb pos end) [
  | true ↦ let (step, a') = recycle_at a pos end in recycle_loop fuel a' (pos + step) end
  | false ↦ a
]

pub recycle_range : StackFrameAllocator → ℕ → ℕ → StackFrameAllocator
recycle_range a pos end = recycle_loop (end - pos) a pos end

-- `for i in 1..total { recycler.push(base + i * unit) }`, from `i` for `n` rounds
pub push_units : ℕ → ℕ → ℕ → ℕ → List ℕ → List ℕ
push_units base unit i zero recycler = recycler
push_units base unit i (suc n) recycler =
    push_units base unit (i + 1) n ((base + i * unit) ∷ recycler)

-- Splits the block at `base` into `total` blocks of `unit` pages: the first is the result, the
-- others are recycled.
pub split_into : ℕ → ℕ → ℕ → List ℕ → ℕ × List ℕ
split_into base total unit recycler = (base, push_units base unit 1 (total - 1) recycler)

pub free_frames : StackFrameAllocator → ℕ
unfolding num_pages
free_frames a =
    (a.end - a.current)
    + length a.recycled_std * num_pages page_4k
    + length a.recycled_mega * num_pages page_2m
    + length a.recycled_giga * num_pages page_1g

abbrev pub Alloc : Type 0
Alloc = Option (ℕ × StackFrameAllocator)

-- The last resort of `alloc_std`: a 1G block is split twice.
pub split_giga : StackFrameAllocator → Alloc
split_giga a = elim a.recycled_giga [
  | [] ↦ none
  | giga ∷ rest ↦
      let (first_mega, megas) =
        split_into giga (giga_pages / mega_pages) mega_pages a.recycled_mega in
      let (first, stds) = split_into first_mega mega_pages 1 a.recycled_std in
      some (
        to_ppn first,
        record a { recycled_std = stds; recycled_mega = megas; recycled_giga = rest },
      )
]

pub alloc_std : StackFrameAllocator → Alloc
unfolding split_giga
alloc_std a = elim a.recycled_std [
  | ppn ∷ rest ↦ some (to_ppn ppn, record a { recycled_std = rest })
  | [] ↦ elim a.recycled_mega [
    | mega ∷ rest ↦
        let (first, stds) = split_into mega mega_pages 1 a.recycled_std in
        some (to_ppn first, record a { recycled_std = stds; recycled_mega = rest })
    | [] ↦
        if ltb a.current a.end
        then some (to_ppn a.current, record a { current = a.current + 1 })
        else split_giga a
  ]
]

-- A new block of `pages` pages from the bump pointer, aligned upwards; what lies between is recycled.
pub alloc_fresh : ℕ → StackFrameAllocator → Alloc
alloc_fresh pages a =
    let aligned : ℕ = (a.current + pages - 1) / pages * pages in
    if ltb a.end (aligned + pages)
    then none
    else some
        (to_ppn aligned, record (recycle_range a a.current aligned) { current = aligned + pages })

pub alloc_mega : StackFrameAllocator → Alloc
unfolding alloc_fresh
alloc_mega a = elim a.recycled_mega [
  | ppn ∷ rest ↦ some (to_ppn ppn, record a { recycled_mega = rest })
  | [] ↦ elim a.recycled_giga [
    | giga ∷ rest ↦
        let (first, megas) = split_into giga (giga_pages / mega_pages) mega_pages a.recycled_mega in
        some (to_ppn first, record a { recycled_mega = megas; recycled_giga = rest })
    | [] ↦ alloc_fresh mega_pages a
  ]
]

pub alloc_giga : StackFrameAllocator → Alloc
unfolding alloc_fresh
alloc_giga a = elim a.recycled_giga [
  | ppn ∷ rest ↦ some (to_ppn ppn, record a { recycled_giga = rest })
  | [] ↦ alloc_fresh giga_pages a
]

pub alloc : StackFrameAllocator → PageSize → Alloc
alloc a page_4k = alloc_std a
alloc a page_2m = alloc_mega a
alloc a page_1g = alloc_giga a

pub already_freed : StackFrameAllocator → ℕ → PageSize → Bool
already_freed a ppn page_4k = contains a.recycled_std ppn
already_freed a ppn page_2m = contains a.recycled_mega ppn
already_freed a ppn page_1g = contains a.recycled_giga ppn

pub recycle : StackFrameAllocator → ℕ → PageSize → StackFrameAllocator
recycle a ppn page_4k = record a { recycled_std = ppn ∷ a.recycled_std }
recycle a ppn page_2m = record a { recycled_mega = ppn ∷ a.recycled_mega }
recycle a ppn page_1g = record a { recycled_giga = ppn ∷ a.recycled_giga }

pub dealloc : StackFrameAllocator → ℕ → PageSize → Option StackFrameAllocator
unfolding already_freed recycle
dealloc a ppn s = if leb a.end ppn || already_freed a ppn s then none else some (recycle a ppn s)
