-- ===== src/Mm/Area.antt =====
-- `MapArea` of os/src/mm/memory_set.rs. A frame is its number, and the page table is a function that
-- gives the entry of a page, where the tables that lead to it are there; what an operation does to the page table and to the page cache is
-- returned with its result.
use os.Base.{
  ℕ, suc, zero, ◌+◌, ◌-◌, Bool, true, false, ◌&&◌, ◌||◌, not, Option, none, some, List, [], ◌∷◌,
  ◌++◌, ltb, leb, ◌==◌, if◌then◌else◌,
}
use os.Frames.{PageSize}
use os.Mm.Address.{std_floor, std_ceil}
use os.Mm.Table.{get, remove}

pub data MapType : Type 0 where
  identical framed file borrowed_kernel windowed guard : MapType

-- The flags of `MapPermission`
pub record MapPermission : Type 0 where
  pub r : Bool
  pub w : Bool
  pub x : Bool
  pub u : Bool

-- What the address space uses of an open file.
pub record File : Type 0 where
  pub ino : ℕ
  pub writable : Bool

pub record MapArea : Type 0 where
  pub range_start : ℕ
  pub range_end : ℕ
  pub data_frames : List (ℕ × ℕ)
  pub map_type : MapType
  pub map_perm : MapPermission
  pub is_shared : Bool
  pub is_locked : Bool
  pub backing_file : Option (File × ℕ)
  pub page_cache_cow : Bool
  pub file_zero_from : Option ℕ
  pub anonymous_shared_frames : Option ℕ
  pub futex_mapping_id : ℕ
  pub futex_mapping_start : ℕ
  pub area_page_size : PageSize

-- An entry of the page table, without its accessed and dirty bits.
pub record Pte : Type 0 where
  pub ppn : ℕ
  pub flags : MapPermission
  pub valid : Bool

-- The page table, the pages of files that were written back, as inode and page number, and the
-- frames that the caller is to release. `panicked` says that the kernel stopped on the way; what is
-- computed after that is not reached.
pub record Pages : Type 0 where
  pub page_table : ℕ → Option Pte
  pub written_back : List (ℕ × ℕ)
  pub released : List ℕ
  pub panicked : Bool

-- The fresh identity that `futex_mapping_id_alloc` gives is an argument.
abbrev pub new : ℕ → ℕ → MapType → MapPermission → PageSize → ℕ → MapArea
new start_va end_va map_type map_perm page_size id = record {
  range_start = std_floor start_va;
  range_end = std_ceil end_va;
  data_frames = [];
  map_type = map_type;
  map_perm = map_perm;
  is_shared = false;
  is_locked = false;
  backing_file = none;
  page_cache_cow = false;
  file_zero_from = none;
  anonymous_shared_frames = none;
  futex_mapping_id = id;
  futex_mapping_start = std_floor start_va;
  area_page_size = page_size;
}

abbrev pub is_guard : MapType → Bool
is_guard guard = true
is_guard _ = false

abbrev pub is_framed : MapType → Bool
is_framed framed = true
is_framed _ = false

abbrev pub has_entry : Option Pte → Bool
has_entry none = false
has_entry (some pte) = pte.valid

-- `PageTableEntry::empty`
abbrev pub empty_pte : Pte
empty_pte = record {
  ppn = 0;
  flags = record { r = false; w = false; x = false; u = false };
  valid = false;
}

-- `PageTable::unmap`, which panics on a page without a valid entry.
abbrev pub clear_pte : Pages → ℕ → Pages
clear_pte pages vpn = record pages {
  page_table = λ v. if v == vpn then some empty_pte else pages.page_table v;
  panicked = pages.panicked || not (has_entry (pages.page_table vpn));
}

-- The write-back of a page of a shared file mapping.
abbrev pub write_back : MapArea → ℕ → List (ℕ × ℕ) → List (ℕ × ℕ)
write_back a vpn log =
    if a.is_shared
    then elim a.backing_file [
      | none ↦ log
      | some (f, base_offset) ↦ log ++ ((f.ino, base_offset + (vpn - a.range_start)) ∷ [])
    ]
    else log

abbrev pub unmap_frame : MapArea → Pages → ℕ → Option ℕ × (MapArea × Pages)
unmap_frame a pages vpn = elim (get a.data_frames vpn) [
  | none ↦ (none, (a, pages))
  | some frame ↦ (
    some frame,
    (
      record a { data_frames = remove a.data_frames vpn },
      clear_pte (record pages { written_back = write_back a vpn pages.written_back }) vpn,
    ),
  )
]

-- For a borrowed page of the kernel: where `translate` finds an entry.
abbrev pub clear_found : Pages → ℕ → Pages
clear_found pages vpn = elim (pages.page_table vpn) [ none ↦ pages | some _ ↦ clear_pte pages vpn ]

abbrev pub unmap_one_as : MapType → MapArea → Pages → ℕ → Option ℕ × (MapArea × Pages)
unmap_one_as framed a pages vpn = unmap_frame a pages vpn
unmap_one_as file a pages vpn = unmap_frame a pages vpn
unmap_one_as identical a pages vpn = (none, (a, clear_pte pages vpn))
unmap_one_as windowed a pages vpn = (none, (a, clear_pte pages vpn))
unmap_one_as borrowed_kernel a pages vpn = (none, (a, clear_found pages vpn))
unmap_one_as guard a pages vpn = (none, (a, pages))

unfoldable pub unmap_one : MapArea → Pages → ℕ → Option ℕ × (MapArea × Pages)
unmap_one a pages vpn = unmap_one_as a.map_type a pages vpn

-- `released_frames.push(frame)`
abbrev pub push_released : Option ℕ → Pages → Pages
push_released none pages = pages
push_released (some frame) pages = record pages { released = pages.released ++ (frame ∷ []) }

-- The loops `while vpn < bound`, from page `vpn` on.
unfoldable pub unmap_loop : ℕ → ℕ → ℕ → ℕ → MapArea → Pages → MapArea × Pages
unmap_loop zero step vpn bound a pages = (a, pages)
unmap_loop (suc fuel) step vpn bound a pages = elim (ltb vpn bound) [
  | false ↦ (a, pages)
  | true ↦
      let (frame, (a', pages')) = unmap_one a pages vpn in
      unmap_loop fuel step (vpn + step) bound a' (push_released frame pages')
]

-- A step is at least one page, so that as many turns as there are pages are enough.
unfoldable pub unmap_pages : ℕ → ℕ → ℕ → MapArea → Pages → MapArea × Pages
unmap_pages step vpn bound a pages = unmap_loop (bound - vpn) step vpn bound a pages

unfoldable pub clone_meta_with_new_range : MapArea → ℕ → ℕ → MapArea
clone_meta_with_new_range a start_vpn end_vpn = record a {
  range_start = start_vpn;
  range_end = end_vpn;
  data_frames = [];
  backing_file = elim a.backing_file [
    | none ↦ none
    | some (f, page_offset) ↦ some (f, page_offset + start_vpn - a.range_start)
  ];
}

-- `VPNRange::new` panics when the start is above the end.
abbrev pub vpn_range_new : ℕ → ℕ → Option (ℕ × ℕ)
vpn_range_new start end = if leb start end then some (start, end) else none

-- With a range that `VPNRange::new` accepts: where areas are cut the page lies inside of the area, and
-- where one grows the caller makes the range.
unfoldable pub resize : MapArea → ℕ → ℕ → MapArea
resize a new_start new_end = record a {
  range_start = new_start;
  range_end = new_end;
  backing_file =
      if ltb a.range_start new_start
      then elim a.backing_file [
        | none ↦ none
        | some (f, page_offset) ↦ some (f, page_offset + (new_start - a.range_start))
      ]
      else a.backing_file;
}

unfoldable pub initial_pte_permission : MapArea → MapPermission
initial_pte_permission a =
    if a.page_cache_cow && a.map_perm.w then record a.map_perm { w = false } else a.map_perm
