-- ===== src/Ids/Stacks.antt =====
-- Kernel stacks of os/src/process/id.rs: where they lie, and who owns their mappings.
use os.Base.{
  ℕ, ◌+◌, ◌≤◌, ◌<◌, ◌≡◌, some, List, [], ◌∷◌, ◌++◌, arith, ◌==◌, if◌then◌else◌, count,
  contains-count, count-append, length, dec_lt, within,
}
use os.Ids.{
  KernelStacks, alloc, dealloc, page_size, kernel_stack_size, kstack_lowest, trampoline,
  kernel_stack_position, kstack_cache_limit, kstack_alloc, kstack_drop, unmap,
}

-- A stack lies between the region's lowest address and the trampoline, has its full size, and
-- leaves at least a guard page above any stack with a larger number.
pub kernel_stack_position-disjoint :
    (i j : ℕ) {b t b' t' : ℕ}
    → i < j
    → kernel_stack_position i ≡ some (b, t)
    → kernel_stack_position j ≡ some (b', t')
    → (b + kernel_stack_size ≡ t) × (t ≤ trampoline) × (t' + page_size ≤ b) × (kstack_lowest ≤ b')
unfolding kernel_stack_position
kernel_stack_position-disjoint i j h p q = ground arith

-- Every stack is held, cached or free once; the held and the cached ones are mapped.
pub record IsValid (s : KernelStacks) (live : List ℕ) : Type 0 where
  pub once :
      (i : ℕ) → count i s.ids.recycled + count i s.cache + count i live ≡ within 0 s.ids.current i
  pub mapped : (i : ℕ) → count i s.mapped ≡ count i s.cache + count i live
  pub few : length s.cache ≤ kstack_cache_limit

count-unmap :
    (i id : ℕ) (xs : List ℕ)
    → 0 < count id xs
    → count i (unmap xs id) + (if i == id then 1 else 0) ≡ count i xs
unfolding count unmap
count-unmap i id [] h = absurd (omega arith)
count-unmap i id (x ∷ xs) h = ground (arith, count-unmap i id xs)

kstack_alloc_parts :
    (current : ℕ) (free cache mapped live : List ℕ) {id : ℕ} {s' : KernelStacks}
    → let s : KernelStacks = record {
      ids = record { current = current; recycled = free };
      cache = cache;
      mapped = mapped;
    } in
      IsValid s live
      → kstack_alloc s ≡ some (id, s')
      → IsValid s' (id ∷ live) × (count id live ≡ 0) × (0 < count id s'.mapped)
unfolding kstack_alloc alloc count
kstack_alloc_parts current free (c ∷ cache) mapped live {id} v e = (
  record {
    once = λ i. ground (arith, v.once i);
    mapped = λ i. ground (arith, v.mapped i);
    few = ground (arith, v.few);
  },
  ground (arith, v.once c),
  ground (arith, v.mapped c),
)
kstack_alloc_parts current [] [] mapped live v e = (
  record {
    once = λ i. ground (arith, v.once i);
    mapped = λ i. ground (arith, v.mapped i);
    few = ground (arith, v.few);
  },
  ground (arith, v.once current),
  ground (arith, v.mapped current),
)
kstack_alloc_parts current (x ∷ free) [] mapped live v e = (
  record {
    once = λ i. ground (arith, v.once i);
    mapped = λ i. ground (arith, v.mapped i);
    few = ground (arith, v.few);
  },
  ground (arith, v.once x),
  ground (arith, v.mapped x),
)

-- A stack that `kstack_alloc` gives out was held by nobody, is mapped, and leaves the state valid.
pub kstack_alloc-IsValid :
    (s : KernelStacks) (live : List ℕ) {id : ℕ} {s' : KernelStacks}
    → IsValid s live
    → kstack_alloc s ≡ some (id, s')
    → IsValid s' (id ∷ live) × (count id live ≡ 0) × (0 < count id s'.mapped)
kstack_alloc-IsValid s live v e =
    kstack_alloc_parts s.ids.current s.ids.recycled s.cache s.mapped live v e

-- Dropping a held stack keeps the state valid, whether the stack is cached or unmapped, and a stack
-- that still has a holder stays mapped. It panics for no held stack whose position is in the region.
pub kstack_drop-IsValid :
    (s : KernelStacks) (before after : List ℕ) (id b t : ℕ)
    → IsValid s (before ++ (id ∷ after))
    → kernel_stack_position id ≡ some (b, t)
    → (s' : KernelStacks) × (kstack_drop s id ≡ some s') × IsValid s' (before ++ after)
unfolding kstack_drop dealloc count
kstack_drop-IsValid s before after id b t v e = elim (dec_lt (length s.cache) 64) [
  | yes h ↦ (
    record s { cache = id ∷ s.cache },
    ground arith,
    record {
      once = λ i. ground (arith, v.once i, counted i);
      mapped = λ i. ground (arith, v.mapped i, counted i);
      few = ground arith;
    },
  )
  | no h ↦ (
    record s {
      ids = record { current = s.ids.current; recycled = id ∷ s.ids.recycled };
      mapped = unmap s.mapped id;
    },
    ground (arith, v.once id, counted id, contains-count s.ids.recycled id),
    record {
      once = λ i. ground (arith, v.once i, counted i);
      mapped = λ i.
          ground (arith, v.mapped i, v.mapped id, counted i, counted id, count-unmap i id s.mapped);
      few = v.few;
    },
  )
]
  where
    counted :
        (i : ℕ)
        → count i (before ++ (id ∷ after)) ≡ (if i == id then 1 else 0) + count i (before ++ after)
    counted i = omega (arith, count-append i before (id ∷ after), count-append i before after)
