-- ===== src/Mm/Space.antt =====
-- `MemorySet` of os/src/mm/memory_set.rs: its state, and the searches for conflicts and for free space.
-- An operation that holds the write lock of the areas is one step.
use os.Base.{
  ℕ, ◌+◌, ◌-◌, ◌*◌, ◌/◌, ◌%◌, ◌^◌, Bool, true, false, ◌&&◌, Option, none, some, List, [], ◌∷◌, ltb,
  leb, if◌then◌else◌,
}
use os.Mm.Address.{page_size, user_app_base, user_app_max_size, va_from, std_floor, std_ceil}
use os.Mm.Area.{MapArea, Pages}

pub data Errno : Type 0 where
  einval enomem eexist ebadf eacces : Errno

pub data Result {ℓ} (A : Type ℓ) : Type ℓ where
  ok : A → Result A
  err : Errno → Result A

pub record MemorySet : Type 0 where
  pub areas : List (ℕ × MapArea)
  pub pages : Pages
  pub brk : ℕ
  pub start_brk : ℕ
  -- the counter behind `futex_mapping_id_alloc`
  pub next_mapping_id : ℕ

-- The loop of `find_free_area_locked`, at the address `current`. The sum wraps around.
unfoldable pub find_free_from : ℕ → ℕ → List (ℕ × MapArea) → Option ℕ
find_free_from length current [] =
    if ltb ((current + length) % 2 ^ 64) user_app_max_size then some current else none
find_free_from length current (e ∷ es) =
    let area_end : ℕ = e.1.range_end * page_size in
    let rest = find_free_from length (if ltb current area_end then area_end else current) es in
    if leb ((current + length) % 2 ^ 64) (e.1.range_start * page_size) then some current else rest

abbrev pub search_start : ℕ
search_start = user_app_base + (user_app_max_size - user_app_base) / 2

abbrev pub find_free_area_locked : ℕ → List (ℕ × MapArea) → Option ℕ
find_free_area_locked length areas = find_free_from length search_start areas

-- The loop of `has_conflict_locked`, on page numbers.
unfoldable pub any_overlap : List (ℕ × MapArea) → ℕ → ℕ → Bool
any_overlap [] target_start target_end = false
any_overlap (e ∷ es) target_start target_end =
    let rest = any_overlap es target_start target_end in
    if ltb e.1.range_start target_end && ltb target_start e.1.range_end then true else rest

abbrev pub has_conflict_locked : List (ℕ × MapArea) → ℕ → ℕ → Bool
has_conflict_locked areas start len =
    any_overlap areas (std_floor (va_from start)) (std_ceil (va_from (start + len)))
