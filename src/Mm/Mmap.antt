-- ===== src/Mm/Mmap.antt =====
-- `mmap` and `mremap_inplace` of os/src/mm/memory_set.rs. A mapping of a file or of anonymous memory is
-- made without frames, which the first access allocates.
pub mod Placed
pub mod Mapped
pub mod Grown
use os.Base.{
  ℕ, ◌+◌, ◌-◌, ◌/◌, ◌^◌, Bool, true, false, not, ◌&&◌, ◌||◌, Option, none, some, List, [], ◌∷◌, ltb,
  ◌==◌, if◌then◌else◌,
}
use os.Frames.{PageSize, page_4k}
use os.Mm.Address.{page_size, va_from, std_floor, std_ceil}
use os.Mm.Table.{get, insert}
use os.Mm.Area.{
  MapType, file, framed, MapPermission, File, MapArea, vpn_range_new, resize, is_framed,
}
use os.Mm.Area as Area
use os.Mm.Space.{
  MemorySet, Result, ok, err, ebadf, eexist, enomem, einval, find_free_area_locked,
  has_conflict_locked,
}
use os.Mm.Munmap.{munmap_locked}

pub record MmapProt : Type 0 where
  pub prot_read : Bool
  pub prot_write : Bool
  pub prot_exec : Bool

pub record MmapFlags : Type 0 where
  pub map_shared : Bool
  pub map_fixed : Bool
  pub map_anonymous : Bool

-- All bits off is `PROT_NONE`.
abbrev pub permission_of : MmapProt → MapPermission
permission_of prot = record {
  r = prot.prot_read;
  w = prot.prot_write;
  x = prot.prot_exec;
  u = prot.prot_read || (prot.prot_write || prot.prot_exec);
}

-- The file that is mapped, `none` for anonymous memory.
abbrev pub file_of : MmapFlags → Option File → Result (Option File)
file_of flags file_inner =
    if flags.map_anonymous
    then ok none
    else elim file_inner [ none ↦ err ebadf | some f ↦ ok (some f) ]

-- The address of the mapping, and the address space without what a fixed one replaces.
unfoldable pub choose_address : MemorySet → ℕ → ℕ → Bool → Option (Result (ℕ × MemorySet))
choose_address ms addr length fixed =
    if addr == 0
    then elim (find_free_area_locked length ms.areas) [
      | none ↦ some (err eexist)
      | some new_addr ↦ some (ok (new_addr, ms))
    ]
    else (if has_conflict_locked ms.areas addr length
        then (if fixed
            then elim (munmap_locked ms addr length) [
              | none ↦ none
              | some ms' ↦ some (ok (addr, ms'))
            ]
            else some (err eexist))
        else some (ok (addr, ms)))

abbrev pub new_area : ℕ → ℕ → MapPermission → Bool → Option File → ℕ → ℕ → MapArea
new_area start length perm shared none page_offset id =
    record (Area.new (va_from start) (va_from (start + length)) framed perm page_4k id) {
      is_shared = shared;
      anonymous_shared_frames = if shared then some id else none;
    }
new_area start length perm shared (some f) page_offset id =
    record (Area.new (va_from start) (va_from (start + length)) file perm page_4k id) {
      backing_file = some (f, page_offset);
      is_shared = shared;
    }

abbrev pub add_area : MemorySet → MapArea → MemorySet
add_area ms a = record ms {
  areas = insert ms.areas a.range_start a;
  next_mapping_id = ms.next_mapping_id + 1;
}

-- `mmap` past its check of the file.
unfoldable pub mmap_file :
    MemorySet → ℕ → ℕ → MmapProt → MmapFlags → Option File → ℕ → Option (Result (ℕ × MemorySet))
mmap_file ms addr length prot flags file_opt offset =
    elim (choose_address ms addr length flags.map_fixed) [
      | none ↦ none
      | some (err e) ↦ some (err e)
      | some (ok (start, ms')) ↦ some (
          ok (
            start,
            add_area ms' (
                new_area start length (permission_of prot) flags.map_shared file_opt
                  (offset / page_size) ms'.next_mapping_id),
          ))
    ]

unfoldable pub mmap :
    MemorySet → ℕ → ℕ → MmapProt → MmapFlags → Option File → ℕ → Option (Result (ℕ × MemorySet))
mmap ms addr length prot flags file_inner offset = elim (file_of flags file_inner) [
  | err e ↦ some (err e)
  | ok file_opt ↦ mmap_file ms addr length prot flags file_opt offset
]

-- The tests of the area that `mremap_inplace` grows.
abbrev pub whole_anonymous : MapArea → ℕ → ℕ → Bool
whole_anonymous a start_vpn end_vpn =
    (a.range_start == start_vpn) && ((a.range_end == end_vpn) && is_framed a.map_type)

-- Past the tests for overflow, with the pages that the addresses stand for. A new range whose end is
-- not above its start panics.
unfoldable pub mremap_vpns : MemorySet → ℕ → ℕ → ℕ → ℕ → ℕ → ℕ → Option (Result (ℕ × MemorySet))
mremap_vpns ms old_addr old_size new_size start_vpn old_end_vpn new_end_vpn =
    elim (get ms.areas start_vpn) [
      | none ↦ some (err enomem)
      | some a ↦
          if not (whole_anonymous a start_vpn old_end_vpn)
          then some (err enomem)
          else (if has_conflict_locked ms.areas (old_addr + old_size) (new_size - old_size)
              then some (err enomem)
              else elim (vpn_range_new start_vpn new_end_vpn) [
                | none ↦ none
                | some (start, end) ↦ some (
                    ok (
                      old_addr,
                      record ms { areas = insert ms.areas start_vpn (resize a start end) },
                    ))
              ])
    ]

unfoldable pub mremap_inplace : MemorySet → ℕ → ℕ → ℕ → Option (Result (ℕ × MemorySet))
mremap_inplace ms old_addr old_size new_size =
    if not (ltb (old_addr + old_size) (2 ^ 64))
    then some (err einval)
    else (if not (ltb (old_addr + new_size) (2 ^ 64))
        then some (err enomem)
        else mremap_vpns ms old_addr old_size new_size (std_floor (va_from old_addr))
            (std_ceil (va_from (old_addr + old_size))) (std_ceil (va_from (old_addr + new_size))))
