-- ===== src/Sched/Tree.antt =====
-- The interface of `RbRootCached` of os/src/process/scheduler/rbtree.rs to the run queues over it: the
-- operations, and what they do to the entries in the order of their keys.
pub mod Entries
pub mod Listed
use os.Base.{
  ℕ, ◌≡◌, ◌⊎◌, Bool, true, false, not, ◌&&◌, Option, none, some, List, [], ◌∷◌, ◌++◌, if◌then◌else◌,
}

-- Behind all entries whose key is not greater.
unfoldable pub insert_entry : {K V : Type 0} → (K → K → Bool) → K → V → List (K × V) → List (K × V)
insert_entry lt key value [] = (key, value) ∷ []
insert_entry lt key value (e ∷ es) =
    let rest = insert_entry lt key value es in
    if lt key e.0 then (key, value) ∷ (e ∷ es) else e ∷ rest

abbrev pub first_entry : {K V : Type 0} → List (K × V) → Option (K × V)
first_entry [] = none
first_entry (e ∷ es) = some e

-- No entry has the property.
abbrev pub NoneHas : {K V : Type 0} → (K × V → Bool) → List (K × V) → Type 0
NoneHas test [] = Unit
NoneHas test (e ∷ es) = (test e ≡ false) × NoneHas test es

-- An entry with the property is gone, whose value is known, or there is none.
abbrev pub Removed :
    {K V : Type 0} → (K × V → Bool) → List (K × V) → Option V → List (K × V) → Type 0
Removed test es none es' = NoneHas test es × (es' ≡ es)
Removed {K} {V} test es (some value) es' =
    (key : K) × (before : List (K × V)) × (after : List (K × V)) × (test (key, value) ≡ true)
    × (es ≡ before ++ ((key, value) ∷ after))
    × (es' ≡ before ++ after)

-- What `remove_where` leaves.
abbrev pub RemovedWhere :
    {K V : Type 0} → (V → Bool) → List (K × V) → Option V → List (K × V) → Type 0
RemovedWhere test = Removed (λ e. test e.1)

-- Neither key is less than the other.
abbrev pub same_key : {K : Type 0} → (K → K → Bool) → K → K → Bool
same_key lt a b = not (lt a b) && not (lt b a)

abbrev pub no_entries : {K V : Type 0} → List (K × V) → Bool
no_entries [] = true
no_entries (e ∷ es) = false

pub record Tree (K V : Type 0) (lt : K → K → Bool) : Type 1 where
  pub Root : Type 0
  pub entries : Root → List (K × V)
  pub new : Root
  pub insert : Root → K → V → Root
  pub first : Root → Option (K × V)
  pub pop_first : Root → Option (V × Root)
  pub is_empty : Root → Bool
  pub remove : Root → K → Option V × Root
  pub remove_where : Root → (V → Bool) → Option V × Root
  pub entries-new : entries new ≡ []
  pub entries-insert :
      (r : Root) (key : K) (value : V)
      → entries (insert r key value) ≡ insert_entry lt key value (entries r)
  pub first_lem : (r : Root) → first r ≡ first_entry (entries r)
  pub pop_first_none : (r : Root) → entries r ≡ [] → pop_first r ≡ none
  pub pop_first_some :
      (r : Root) {e : K × V} {es : List (K × V)}
      → entries r ≡ e ∷ es
      → (r' : Root) × (pop_first r ≡ some (e.1, r')) × (entries r' ≡ es)
  pub remove_where_lem :
      (r : Root) (test : V → Bool)
      → RemovedWhere test (entries r) (remove_where r test).0 (entries (remove_where r test).1)
  pub is_empty_lem : (r : Root) → is_empty r ≡ no_entries (entries r)
  pub remove_lem :
      (r : Root) (key : K)
      → Removed (λ e. same_key lt key e.0) (entries r) (remove r key).0 (entries (remove r key).1)
