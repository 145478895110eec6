-- ===== src/Ids.antt =====
-- os/src/process/id.rs and os/src/mm/id.rs: identifiers that are recycled. `RecycleAllocator` is
-- behind pids, tids, kernel stacks, address spaces, message queues and shared memory segments.
-- A `Vec` that is pushed and popped at its end is a list with that end first. A panic is `none`.
pub mod Unique
pub mod Stacks
mod Examples
use os.Base.{
  ℕ, suc, ◌+◌, ◌-◌, ◌*◌, ◌^◌, ◌≡◌, Bool, true, false, Option, none, some, List, [], ◌∷◌, ltb,
  if◌then◌else◌, contains, length, ◌==◌,
}

pub record RecycleAllocator : Type 0 where
  pub current : ℕ
  pub recycled : List ℕ

unfoldable pub new_with_start : ℕ → RecycleAllocator
new_with_start start = record { current = start; recycled = [] }

pub new : RecycleAllocator
unfolding new_with_start
new = new_with_start 0

unfoldable pub alloc : RecycleAllocator → ℕ × RecycleAllocator
alloc a = elim a.recycled [
  | id ∷ rest ↦ (id, record a { recycled = rest })
  | [] ↦ (a.current, record a { current = a.current + 1 })
]

-- Both assertions are on the path: the id was handed out, and is not free already.
unfoldable pub dealloc : RecycleAllocator → ℕ → Option RecycleAllocator
dealloc a id =
    if ltb id a.current
    then (if contains a.recycled id then none else some (record a { recycled = id ∷ a.recycled }))
    else none

-- `TIdHandle(usize, bool)`: the flag says whether the drop gives the id back.
pub record TidHandle : Type 0 where
  pub id : ℕ
  pub owned : Bool

pub tid_alloc : RecycleAllocator → TidHandle × RecycleAllocator
unfolding alloc
tid_alloc a = let (id, a') = alloc a in (record { id = id; owned = true }, a')

pub tid_from_pid : ℕ → TidHandle
tid_from_pid pid = record { id = pid; owned = false }

pub drop_tid : RecycleAllocator → TidHandle → Option RecycleAllocator
unfolding dealloc
drop_tid a h = if h.owned then dealloc a h.id else some a

-- `asid_alloc` of mm/id.rs, with the count of encodable ASIDs of the architecture.
pub asid_alloc : ℕ → RecycleAllocator → Option (ℕ × RecycleAllocator)
unfolding alloc
asid_alloc asid_count a =
    let (asid, a') = alloc a in if ltb asid asid_count then some (asid, a') else none

abbrev pub page_size : ℕ
page_size = 0x1000

abbrev pub kernel_stack_size : ℕ
kernel_stack_size = page_size * 32

-- `usize::MAX - PAGE_SIZE + 1`
abbrev pub trampoline : ℕ
trampoline = 2 ^ 64 - page_size

abbrev pub kstack_lowest : ℕ
kstack_lowest = 0xffff_ffff_c000_0000

abbrev checked_sub : ℕ → ℕ → Option ℕ
checked_sub a b = if ltb a b then none else some (a - b)

-- The RISC-V version; (bottom, top) of a kernel stack, and a panic when the id does not fit.
pub kernel_stack_position : ℕ → Option (ℕ × ℕ)
kernel_stack_position app_id =
    let offset : ℕ = app_id * (kernel_stack_size + page_size) in
    if ltb offset (2 ^ 64)
    then elim (checked_sub trampoline offset) [
      | none ↦ none
      | some top ↦ elim (checked_sub top kernel_stack_size) [
        | none ↦ none
        | some bottom ↦ if ltb bottom kstack_lowest then none else some (bottom, top)
      ]
    ]
    else none

abbrev pub kstack_cache_limit : ℕ
kstack_cache_limit = 64

-- `KSTACK_ALLOCATOR`, `KSTACK_CACHE`, and the stacks that are mapped in the kernel space.
pub record KernelStacks : Type 0 where
  pub ids : RecycleAllocator
  pub cache : List ℕ
  pub mapped : List ℕ

unmap : List ℕ → ℕ → List ℕ
unmap [] id = []
unmap (x ∷ xs) id = if x == id then xs else x ∷ unmap xs id

-- `kstack_alloc`: a cached stack keeps its mapping (its bytes are cleared, which is not modelled);
-- a new one is mapped.
pub kstack_alloc : KernelStacks → Option (ℕ × KernelStacks)
unfolding alloc
kstack_alloc s = elim s.cache [
  | id ∷ rest ↦ elim (kernel_stack_position id) [
    | none ↦ none
    | some _ ↦ some (id, record s { cache = rest })
  ]
  | [] ↦
      let (id, ids') = alloc s.ids in
      elim (kernel_stack_position id) [
        | none ↦ none
        | some _ ↦ some (id, record s { ids = ids'; mapped = id ∷ s.mapped })
      ]
]

-- `Drop for KernelStack`: into the cache while it has room, else unmapped and given back.
pub kstack_drop : KernelStacks → ℕ → Option KernelStacks
unfolding dealloc
kstack_drop s id =
    if ltb (length s.cache) kstack_cache_limit
    then some (record s { cache = id ∷ s.cache })
    else elim (kernel_stack_position id) [
      | none ↦ none
      | some _ ↦ elim (dealloc s.ids id) [
        | none ↦ none
        | some ids' ↦ some (record s { ids = ids'; mapped = unmap s.mapped id })
      ]
    ]
