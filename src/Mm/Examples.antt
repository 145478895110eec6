-- ===== src/Mm/Examples.antt =====
-- Runs of the operations of os/src/mm/memory_set.rs on an address space with two areas.
use os.Base.{
  ◌||◌, ◌==◌, Bool, Option, ℕ, ◌+◌, ◌-◌, ◌/◌, ◌%◌, ◌^◌, ◌↔◌, ◌<◌, ◌≡◌, refl, true, false, none,
  some, List, [], ◌∷◌, if◌then◌else◌, arith,
}
use os.Frames.{page_4k, num_pages}
use os.Mm.Address.{page_size, user_app_max_size, std_floor, std_ceil}
use os.Mm.Area.{
  MapPermission, Pte, File, MapArea, file, framed, unmap_pages, unmap_loop, unmap_one, resize,
  clone_meta_with_new_range,
}
use os.Mm.Space.{
  Result, err, MemorySet, ok, find_free_area_locked, has_conflict_locked, search_start, any_overlap,
  find_free_from,
}
use os.Mm.Munmap.{
  munmap_range, munmap_locked, munmap_vpns, sweep, commit, munmap_area, delete_all, split_middle,
  delete_left_part, delete_right_part, remove_empty, rekey_areas, rekey_area, insert_new,
}
use os.Mm.Table.{get, insert, remove, split_low, split_high}
use os.Mm.Mmap.{
  MmapProt, MmapFlags, permission_of, choose_address, mmap, mmap_file, mremap_inplace, mremap_vpns,
}
use os.Mm.Protect.{
  mprotect, mprotect_vpns, isolate, check_areas, split_ends, split_area_at, change_inside,
  scan_back, all_after,
}
use os.Mm.Protect.Entries.{small_page}
use os.Mm.Protect.Flags.{Protects, mprotect-Protects}
use os.Mm.View.{page_at, WellFormed}
use os.Mm.View.Search.{
  SomePage, find_free_area_locked-free, find_free_area_locked-none, has_conflict_locked_iff,
}
use os.Mm.Mmap.Placed.{OnRun, Running, Unmapped, munmap_locked-Unmapped}
use os.Mm.Mmap.Mapped.{Mapped, mmap_lem}
use os.Mm.Mmap.Grown.{GrownIfOk, mremap_inplace-Grown}

abbrev read_write : MapPermission
read_write = record { r = true; w = true; x = false; u = true }

-- Pages 0x50 to 0x57 of file 7, shared, from page 3 of the file on; pages 0x51 and 0x55 are in memory.
abbrev file_area : MapArea
file_area = record {
  range_start = 0x50;
  range_end = 0x58;
  data_frames = (0x51, 900) ∷ ((0x55, 901) ∷ []);
  map_type = file;
  map_perm = read_write;
  is_shared = true;
  is_locked = false;
  backing_file = some (record { ino = 7; writable = true }, 3);
  page_cache_cow = false;
  file_zero_from = none;
  anonymous_shared_frames = none;
  futex_mapping_id = 1;
  futex_mapping_start = 0x50;
  area_page_size = page_4k;
}

-- Anonymous memory behind it.
abbrev anonymous_area : MapArea
anonymous_area = record file_area {
  range_start = 0x58;
  range_end = 0x60;
  data_frames = (0x58, 902) ∷ [];
  map_type = framed;
  is_shared = false;
  backing_file = none;
  futex_mapping_id = 2;
  futex_mapping_start = 0x58;
}

abbrev entry : Pte
entry = record { ppn = 900; flags = read_write; valid = true }

abbrev two_areas : MemorySet
two_areas = record {
  areas = (0x50, file_area) ∷ ((0x58, anonymous_area) ∷ []);
  pages = record {
    page_table = λ v. if (v == 0x51) || (v == 0x55) || (v == 0x58) then some entry else none;
    written_back = [];
    released = [];
    panicked = false;
  };
  brk = 0;
  start_brk = 0;
  next_mapping_id = 3;
}

abbrev two_areas-WellFormed : WellFormed two_areas
two_areas-WellFormed = record {
  order = (refl, omega arith, omega arith, (refl, omega arith, omega arith, tt));
  ends = (omega arith, (omega arith, tt));
}

two_areas-Running : Running two_areas
unfolding get
two_areas-Running = record {
  running = refl;
  resident = (refl, refl, λ v. ground arith, (refl, refl, λ v. ground arith, tt));
}

-- Pages 0x54 to 0x59 are unmapped: the end of one area, and the start of the other.
munmap_locked-Unmapped_example :
    (ms' : MemorySet) × (munmap_locked two_areas 0x54000 0x6000 ≡ some ms')
    × Unmapped two_areas 0x54000 0x6000 ms'
munmap_locked-Unmapped_example =
    munmap_locked-Unmapped two_areas 0x54000 0x6000 (omega arith) two_areas-WellFormed
      two_areas-Running

-- What it leaves: the written-back page, the frames to release, and the keys.
keys_of : List (ℕ × MapArea) → List (ℕ × ℕ)
keys_of [] = []
keys_of (e ∷ es) = (e.0, e.1.range_end) ∷ keys_of es

after_munmap :
    let ms : MemorySet = munmap_range two_areas 0x54000 0x6000 in
    (keys_of ms.areas ≡ (0x50, 0x54) ∷ ((0x5a, 0x60) ∷ []))
    × (ms.pages.written_back ≡ (7, 8) ∷ [])
    × (ms.pages.released ≡ 901 ∷ (902 ∷ []))
unfolding munmap_vpns sweep commit munmap_area delete_all split_middle delete_left_part
    delete_right_part unmap_pages unmap_loop unmap_one resize remove_empty rekey_areas rekey_area
    insert_new get insert remove split_low split_high clone_meta_with_new_range num_pages keys_of
after_munmap = (refl, refl, refl)

-- A fixed mapping over both areas.
abbrev read_only : MmapProt
read_only = record { prot_read = true; prot_write = false; prot_exec = false }

abbrev fixed_private : MmapFlags
fixed_private = record { map_shared = false; map_fixed = true; map_anonymous = false }

abbrev other_file : File
other_file = record { ino = 9; writable = false }

is_done : Option (Result (ℕ × MemorySet)) → Bool
is_done (some (ok _)) = true
is_done (some (err _)) = false
is_done none = false

fixed_mapping :
    is_done (mmap two_areas 0x56000 0x3000 read_only fixed_private (some other_file) 0x2000) ≡ true
unfolding mmap mmap_file choose_address any_overlap munmap_locked munmap_vpns sweep munmap_area
    delete_all split_middle delete_left_part delete_right_part unmap_pages unmap_loop unmap_one get
    num_pages is_done
fixed_mapping = refl

mmap_lem_example :
    OnRun
      (λ (x : ℕ × MemorySet).
        Mapped two_areas 0x56000 0x3000 read_only fixed_private (some other_file) 0x2000 x.0 x.1)
      (mmap two_areas 0x56000 0x3000 read_only fixed_private (some other_file) 0x2000)
mmap_lem_example =
    mmap_lem two_areas 0x56000 0x3000 read_only fixed_private (some other_file) (some other_file)
      0x2000 two_areas-WellFormed two_areas-Running (omega arith) refl (omega arith) refl

-- The search starts past the two areas; a third one fills all but the last page.
first_free : find_free_area_locked 0x3000 two_areas.areas ≡ some search_start
unfolding find_free_from
first_free = refl

find_free_area_locked-free_example :
    (search_start % page_size ≡ 0)
    × (search_start + 0x3000 < user_app_max_size)
    × (has_conflict_locked two_areas.areas search_start 0x3000 ≡ false)
find_free_area_locked-free_example =
    find_free_area_locked-free 0x3000 two_areas.areas search_start two_areas-WellFormed.order
      two_areas-WellFormed.ends (omega arith) first_free

abbrev full : List (ℕ × MapArea)
full =
    (
      search_start / page_size,
      record anonymous_area {
        range_start = search_start / page_size;
        range_end = 2 ^ 26 - 1;
        data_frames = [];
      },
    )
    ∷ []

none_free : find_free_area_locked 0x1000 full ≡ none
unfolding find_free_from
none_free = refl

find_free_area_locked-none_example : has_conflict_locked full (search_start + 0x5000) 0x1000 ≡ true
find_free_area_locked-none_example =
    find_free_area_locked-none 0x1000 full (search_start + 0x5000)
      (refl, omega arith, omega arith, tt) (omega arith, tt) (omega arith) none_free (omega arith)
      (omega arith)

has_conflict_locked_iff_example :
    (has_conflict_locked two_areas.areas 0x5f000 0x2000 ≡ true)
    ↔ SomePage two_areas.areas (std_floor 0x5f000) (std_ceil (0x5f000 + 0x2000))
has_conflict_locked_iff_example =
    has_conflict_locked_iff two_areas.areas 0x5f000 0x2000 two_areas-WellFormed.order (omega arith)
      (omega arith)

-- Pages 0x54 to 0x59 are made read-only: the end of one area, and the start of the other.
result_of : Result MemorySet → MemorySet
result_of (ok ms) = ms
result_of (err _) = two_areas

protected :
    mprotect two_areas 0x54000 0x6000 read_only
    ≡ ok (result_of (mprotect two_areas 0x54000 0x6000 read_only))
unfolding mprotect mprotect_vpns isolate check_areas split_ends split_area_at change_inside
    scan_back all_after get insert remove split_low split_high resize clone_meta_with_new_range
    num_pages result_of
protected = refl

small_pages : (v : ℕ) → small_page (page_at two_areas.areas v) ≡ true
unfolding page_at get
small_pages v = ground arith

mprotect-Protects_example :
    Protects
      (permission_of read_only)
      two_areas
      0x54000
      0x6000
      (result_of (mprotect two_areas 0x54000 0x6000 read_only))
mprotect-Protects_example =
    mprotect-Protects two_areas 0x54000 0x6000 two_areas-WellFormed small_pages (omega arith)
      (omega arith) read_only (result_of (mprotect two_areas 0x54000 0x6000 read_only)) protected

keys_protected :
    keys_of (result_of (mprotect two_areas 0x54000 0x6000 read_only)).areas
    ≡ (0x50, 0x54) ∷ ((0x54, 0x58) ∷ ((0x58, 0x5a) ∷ ((0x5a, 0x60) ∷ [])))
unfolding mprotect mprotect_vpns isolate check_areas split_ends split_area_at change_inside
    scan_back all_after get insert remove split_low split_high resize clone_meta_with_new_range
    num_pages result_of keys_of
keys_protected = refl

-- The anonymous area doubles in place.
grown : is_done (mremap_inplace two_areas 0x58000 0x8000 0x10000) ≡ true
unfolding mremap_inplace mremap_vpns any_overlap get insert remove split_low split_high resize
    is_done
grown = refl

mremap_inplace-Grown_example :
    GrownIfOk two_areas 0x58000 0x8000 0x10000 (mremap_inplace two_areas 0x58000 0x8000 0x10000)
mremap_inplace-Grown_example =
    mremap_inplace-Grown two_areas 0x58000 0x8000 0x10000 two_areas-WellFormed refl refl
      (omega arith) (omega arith)
