-- ===== src/Ids/Examples.antt =====
-- The theorems on identifiers and kernel stacks, applied to small states.
use os.Base.{ℕ, ◌-◌, ◌≤◌, ◌<◌, ◌≡◌, refl, [], ◌∷◌, arith, count}
use os.Ids.{
  RecycleAllocator, new_with_start, alloc, KernelStacks, kstack_alloc, kernel_stack_position,
  trampoline,
}
use os.Ids.Unique.{Reach, Reach-unique}
use os.Ids.Stacks.{IsValid, kstack_alloc-IsValid}

abbrev two_ids : RecycleAllocator
two_ids = record { current = 2; recycled = [] }

two_ids-Reach : Reach 0 two_ids (1 ∷ 0 ∷ [])
unfolding alloc new_with_start
two_ids-Reach = Reach.allocs (Reach.allocs Reach.begin)

Reach-unique_example : count 1 (1 ∷ 0 ∷ []) ≤ 1
Reach-unique_example = Reach-unique 1 two_ids-Reach

abbrev top_of_1 : ℕ
top_of_1 = trampoline - 0x21000

abbrev no_stacks : KernelStacks
no_stacks = record { ids = record { current = 0; recycled = [] }; cache = []; mapped = [] }

abbrev one_stack : KernelStacks
one_stack = record { ids = record { current = 1; recycled = [] }; cache = []; mapped = 0 ∷ [] }

no_stacks-IsValid : IsValid no_stacks []
unfolding count
no_stacks-IsValid = record { once = λ i. ground arith; mapped = λ i. refl; few = omega arith }

one_stack-IsValid : IsValid one_stack (0 ∷ [])
unfolding count
one_stack-IsValid = record {
  once = λ i. ground arith;
  mapped = λ i. omega arith;
  few = omega arith;
}

kstack_alloc-IsValid_example :
    IsValid one_stack (0 ∷ []) × (count 0 [] ≡ 0) × (0 < count 0 one_stack.mapped)
unfolding kstack_alloc alloc kernel_stack_position
kstack_alloc-IsValid_example = kstack_alloc-IsValid no_stacks [] no_stacks-IsValid refl
