-- ===== src/Ids/Unique.antt =====
-- An identifier is never held twice: each number that was handed out is held once or free once.
use os.Base.{
  ℕ, ◌+◌, ◌≤◌, ◌<◌, ◌≡◌, ◌↔◌, none, some, List, [], ◌∷◌, arith, count, contains-count, within,
  count-contains, count-append, sym, ◌∙◌, ◌++◌, ◌≢◌,
}
use os.Ids.{RecycleAllocator, new_with_start, alloc, dealloc}

-- The holders have the identifiers `live`; the first identifier is `start`.
pub record IsValid (start : ℕ) (a : RecycleAllocator) (live : List ℕ) : Type 0 where
  pub begun : start ≤ a.current
  pub once : (i : ℕ) → count i a.recycled + count i live ≡ within start a.current i

-- A new allocator with no holder is valid.
pub new_with_start-IsValid : (start : ℕ) → IsValid start (new_with_start start) []
unfolding new_with_start count
new_with_start-IsValid start = record { begun = omega arith; once = λ i. ground arith }

alloc_once :
    (start cur : ℕ) (free live : List ℕ)
    → IsValid start (record { current = cur; recycled = free }) live
    → let (id, a') = alloc (record { current = cur; recycled = free }) in
      IsValid start a' (id ∷ live) × (count id live ≡ 0)
unfolding alloc count
alloc_once start cur [] live v = (
  record { begun = omega (arith, v.begun); once = λ i. ground (arith, v.once i, v.begun) },
  ground (arith, v.once cur),
)
alloc_once start cur (x ∷ free) live v =
    (record { begun = v.begun; once = λ i. ground (arith, v.once i) }, ground (arith, v.once x))

-- `alloc` hands out an identifier that nobody holds, and the holders with it stay valid.
pub alloc-IsValid :
    (start : ℕ) (a : RecycleAllocator) (live : List ℕ)
    → IsValid start a live
    → let (id, a') = alloc a in IsValid start a' (id ∷ live) × (count id live ≡ 0)
alloc-IsValid start a live v = alloc_once start a.current a.recycled live v

-- The identifiers, with none held twice, that a history of calls can lead to: `alloc` by a new
-- holder, and the drop of any holder.
pub data Reach (start : ℕ) : RecycleAllocator → List ℕ → Type 0 where
  begin : Reach start (new_with_start start) []
  allocs :
      {a : RecycleAllocator} {live : List ℕ}
      → Reach start a live
      → Reach start (alloc a).1 ((alloc a).0 ∷ live)
  drops :
      {a a' : RecycleAllocator} (before after : List ℕ) (id : ℕ)
      → Reach start a (before ++ (id ∷ after))
      → dealloc a id ≡ some a'
      → Reach start a' (before ++ after)

dealloc-IsValid :
    (start id : ℕ) (a : RecycleAllocator) (before after : List ℕ)
    → IsValid start a (before ++ (id ∷ after))
    → (a' : RecycleAllocator) × (dealloc a id ≡ some a') × IsValid start a' (before ++ after)
unfolding dealloc count
dealloc-IsValid start id a before after v = (
  record a { recycled = id ∷ a.recycled },
  ground (arith, v.once id, count-append id before (id ∷ after), contains-count a.recycled id),
  record {
    begun = v.begun;
    once = λ i.
        ground (arith, v.once i, count-append i before (id ∷ after), count-append i before after);
  },
)

some_injective : {a b : RecycleAllocator} → some a ≡ some b → a ≡ b
some_injective e = ground arith

pub Reach-IsValid :
    {start : ℕ} {a : RecycleAllocator} {live : List ℕ} → Reach start a live → IsValid start a live
Reach-IsValid {start} begin = new_with_start-IsValid start
Reach-IsValid {start} (allocs {a} {live} r) = (alloc-IsValid start a live (Reach-IsValid r)).0
Reach-IsValid {start} (drops {a} {a'} before after id r e) =
    let d = dealloc-IsValid start id a before after (Reach-IsValid r) in
    rw (some_injective (sym e ∙ d.1)) d.2

-- After any history of allocations and drops, no identifier has two holders.
pub Reach-unique :
    {start : ℕ} {a : RecycleAllocator} {live : List ℕ} (id : ℕ)
    → Reach start a live
    → count id live ≤ 1
Reach-unique id r = ground (arith, (Reach-IsValid r).once id)

-- After any history of allocations and drops, the drop of a held identifier does not panic.
pub Reach-dealloc :
    {start : ℕ} {a : RecycleAllocator} {live : List ℕ} (id : ℕ)
    → Reach start a live
    → 0 < count id live
    → dealloc a id ≢ none
unfolding dealloc
Reach-dealloc {a = a} id r h =
    ground (arith, (Reach-IsValid r).once id, contains-count a.recycled id)

-- In a valid state `dealloc` panics on exactly the identifiers that nobody holds: one that was
-- never handed out, and one that was given back already.
pub dealloc-eq-none_iff :
    (start id : ℕ) (a : RecycleAllocator) (live : List ℕ)
    → start ≤ id
    → IsValid start a live
    → (dealloc a id ≡ none) ↔ (count id live ≡ 0)
unfolding dealloc
dealloc-eq-none_iff start id a live h v = (
  λ e. ground (arith, v.once id, contains-count a.recycled id),
  λ e. ground (arith, v.once id, count-contains a.recycled id),
)
