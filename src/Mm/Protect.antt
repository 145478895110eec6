-- ===== src/Mm/Protect.antt =====
-- `split_area_at`, `mprotect` and `mlock_range` of os/src/mm/memory_set.rs.
pub mod Split
pub mod Cut
pub mod Keys
pub mod Isolated
pub mod Entries
pub mod Changed
pub mod Flags
use os.Base.{
  ℕ, zero, suc, ◌+◌, ◌-◌, ◌%◌, ◌^◌, Bool, true, false, not, ◌&&◌, ◌||◌, Option, none, some, List,
  [], ◌∷◌, ltb, leb, ◌==◌, if◌then◌else◌,
}
use os.Frames.{num_pages}
use os.Mm.Address.{va_from, std_floor, std_ceil}
use os.Mm.Table.{get, insert, split_low, split_high}
use os.Mm.Area.{
  MapPermission, MapArea, Pages, Pte, File, is_guard, resize, clone_meta_with_new_range,
  initial_pte_permission,
}
use os.Mm.Space.{MemorySet, Result, ok, err, einval, enomem, eacces}
use os.Mm.Mmap.{MmapProt, permission_of}

-- The two parts of an area that is split at a page.
abbrev pub left_part : MapArea → ℕ → MapArea
left_part a split_vpn =
    resize (record a { data_frames = split_low a.data_frames split_vpn }) a.range_start split_vpn

abbrev pub right_part : MapArea → ℕ → MapArea
right_part a split_vpn =
    record (clone_meta_with_new_range (record a { data_frames = split_low a.data_frames split_vpn })
      split_vpn a.range_end) { data_frames = split_high a.data_frames split_vpn }

unfoldable pub split_area_at : List (ℕ × MapArea) → ℕ → ℕ → Result (List (ℕ × MapArea))
split_area_at areas key split_vpn = elim (get areas key) [
  | none ↦ ok areas
  | some a ↦
      if leb split_vpn a.range_start || leb a.range_end split_vpn
      then ok areas
      else (if not (split_vpn % num_pages a.area_page_size == 0)
          then err einval
          else ok (
              insert (insert areas key (left_part a split_vpn)) split_vpn (right_part a split_vpn)))
]

-- The areas that the backward scan of `areas.range(..end_vpn)` meets before the first that ends at or
-- below the start, in ascending order.
unfoldable pub all_after : ℕ → List (ℕ × MapArea) → Bool
all_after start_vpn [] = true
all_after start_vpn (e ∷ es) = ltb start_vpn e.1.range_end && all_after start_vpn es

unfoldable pub scan_back : ℕ → List (ℕ × MapArea) → List (ℕ × MapArea)
unfolding all_after
scan_back start_vpn [] = []
scan_back start_vpn (e ∷ es) =
    let rest = scan_back start_vpn es in if all_after start_vpn (e ∷ es) then e ∷ es else rest

abbrev pub affected : List (ℕ × MapArea) → ℕ → ℕ → List (ℕ × MapArea)
affected areas start_vpn end_vpn = scan_back start_vpn (split_low areas end_vpn)

abbrev pub unwritable : Option (File × ℕ) → Bool
unwritable none = false
unwritable (some (f, _)) = not f.writable

-- The loop of the checks: the page up to which the areas cover the range without a hole.
unfoldable pub check_areas : ℕ → ℕ → Bool → ℕ → List (ℕ × MapArea) → Result ℕ
check_areas start_vpn end_vpn write covered_until [] = ok covered_until
check_areas start_vpn end_vpn write covered_until (e ∷ es) =
    let step : ℕ = num_pages e.1.area_page_size in
    let rest =
      check_areas start_vpn end_vpn write
        (if ltb covered_until e.1.range_end then e.1.range_end else covered_until) es in
    if is_guard e.1.map_type || ltb covered_until e.1.range_start
    then err enomem
    else (if write && (e.1.is_shared && unwritable e.1.backing_file)
        then err eacces
        else (if not (start_vpn % step == 0) || not (end_vpn % step == 0)
            then err einval
            else rest))

abbrev pub last_key : ℕ → List (ℕ × MapArea) → ℕ
last_key key [] = key
last_key key (e ∷ es) = last_key e.0 es

-- The checks, and the splits at both ends of the range. The right end is split first.
unfoldable pub split_ends :
    List (ℕ × MapArea) → ℕ → ℕ → List (ℕ × MapArea) → Result (List (ℕ × MapArea))
unfolding split_area_at
split_ends areas start_vpn end_vpn [] = err enomem
split_ends areas start_vpn end_vpn (first ∷ more) =
    elim (split_area_at areas (last_key first.0 more) end_vpn) [
      | err e ↦ err e
      | ok areas' ↦ split_area_at areas' first.0 start_vpn
    ]

unfoldable pub isolate : List (ℕ × MapArea) → ℕ → ℕ → Bool → Result (List (ℕ × MapArea))
unfolding check_areas split_ends
isolate areas start_vpn end_vpn write =
    let hit = affected areas start_vpn end_vpn in
    elim (check_areas start_vpn end_vpn write start_vpn hit) [
      | err e ↦ err e
      | ok covered_until ↦
          if ltb covered_until end_vpn then err enomem else split_ends areas start_vpn end_vpn hit
    ]

-- The change of each area that lies in the range.
unfoldable pub change_inside : (MapArea → MapArea) → ℕ → ℕ → List (ℕ × MapArea) → List (ℕ × MapArea)
change_inside change start_vpn end_vpn [] = []
change_inside change start_vpn end_vpn (e ∷ es) =
    let rest = change_inside change start_vpn end_vpn es in
    if (leb start_vpn e.0 && ltb e.0 end_vpn)
      && (leb start_vpn e.1.range_start && leb e.1.range_end end_vpn)
    then (e.0, change e.1) ∷ rest
    else e ∷ rest

-- `set_flags` of the valid entries among the pages from `vpn` on.
unfoldable pub set_flags_loop : ℕ → ℕ → ℕ → ℕ → MapPermission → (ℕ → Option Pte) → ℕ → Option Pte
set_flags_loop zero step vpn bound flags table = table
set_flags_loop (suc fuel) step vpn bound flags table = elim (ltb vpn bound) [
  | false ↦ table
  | true ↦ set_flags_loop fuel step (vpn + step) bound flags (λ v.
      if v == vpn
      then elim (table vpn) [
        | none ↦ none
        | some pte ↦ some (if pte.valid then record pte { flags = flags } else pte)
      ]
      else table v)
]

-- The same loop's changes of the page table, for the areas that were changed.
unfoldable pub change_ptes : ℕ → ℕ → List (ℕ × MapArea) → (ℕ → Option Pte) → ℕ → Option Pte
unfolding set_flags_loop initial_pte_permission
change_ptes start_vpn end_vpn [] table = table
change_ptes start_vpn end_vpn (e ∷ es) table = change_ptes start_vpn end_vpn es (
    if (leb start_vpn e.0 && ltb e.0 end_vpn)
      && (leb start_vpn e.1.range_start && leb e.1.range_end end_vpn)
    then set_flags_loop (e.1.range_end - e.1.range_start) (num_pages e.1.area_page_size)
        e.1.range_start e.1.range_end (initial_pte_permission e.1) table
    else table)

abbrev pub with_perm : MapPermission → MapArea → MapArea
with_perm perm a = record a { map_perm = perm }

abbrev pub locked : MapArea → MapArea
locked a = record a { is_locked = true }

-- The two operations on page numbers, past the checks of their arguments.
unfoldable pub mprotect_vpns : MemorySet → ℕ → ℕ → MapPermission → Result MemorySet
mprotect_vpns ms s t perm = elim (isolate ms.areas s t perm.w) [
  | err e ↦ err e
  | ok areas ↦
      let changed = change_inside (with_perm perm) s t areas in
      ok (record ms {
        areas = changed;
        pages = record ms.pages { page_table = change_ptes s t changed ms.pages.page_table };
      })
]

unfoldable pub mlock_vpns : MemorySet → ℕ → ℕ → Result MemorySet
mlock_vpns ms s t = elim (isolate ms.areas s t false) [
  | err e ↦ err e
  | ok areas ↦ ok (record ms { areas = change_inside locked s t areas })
]

unfoldable pub mprotect : MemorySet → ℕ → ℕ → MmapProt → Result MemorySet
mprotect ms start length prot =
    if length == 0
    then ok ms
    else (if ltb (start + length) (2 ^ 64)
        then mprotect_vpns ms (std_floor (va_from start)) (std_ceil (va_from (start + length)))
            (permission_of prot)
        else err einval)

unfoldable pub mlock_range : MemorySet → ℕ → ℕ → Result MemorySet
mlock_range ms start length =
    if length == 0
    then ok ms
    else (if ltb (start + length) (2 ^ 64)
        then mlock_vpns ms (std_floor (va_from start)) (std_ceil (va_from (start + length)))
        else err einval)
