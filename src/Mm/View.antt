-- ===== src/Mm/View.antt =====
-- What an address space of os/src/mm/memory_set.rs says of each page, and the order of its areas.
pub mod Pieces
pub mod Cuts
pub mod Unmapped
pub mod Search
pub mod Inserted
pub mod Entries
pub mod Swept
pub mod Logs
use os.Base.{
  ℕ, ◌*◌, ◌+◌, ◌-◌, ◌≤◌, ◌<◌, ◌≡◌, Bool, Option, none, some, List, [], ◌∷◌, if◌then◌else◌,
}
use os.Frames.{PageSize}
use os.Mm.Address.{page_size, user_app_max_size, range_contains}
use os.Mm.Table.{get}
use os.Mm.Space.{MemorySet}
use os.Mm.Area.{MapType, MapPermission, File, MapArea}

-- All that an area says of one of its pages, with the page of the file and the frame behind it.
pub record Page : Type 0 where
  pub map_type : MapType
  pub map_perm : MapPermission
  pub is_shared : Bool
  pub is_locked : Bool
  pub file_page : Option (File × ℕ)
  pub page_cache_cow : Bool
  pub file_zero_from : Option ℕ
  pub anonymous_shared_frames : Option ℕ
  pub futex_mapping_id : ℕ
  pub futex_mapping_start : ℕ
  pub size : PageSize
  pub frame : Option ℕ

abbrev pub file_page_of : Option (File × ℕ) → ℕ → Option (File × ℕ)
file_page_of none i = none
file_page_of (some (f, page_offset)) i = some (f, page_offset + i)

abbrev pub page_of : MapArea → ℕ → Page
page_of a v = record {
  map_type = a.map_type;
  map_perm = a.map_perm;
  is_shared = a.is_shared;
  is_locked = a.is_locked;
  file_page = file_page_of a.backing_file (v - a.range_start);
  page_cache_cow = a.page_cache_cow;
  file_zero_from = a.file_zero_from;
  anonymous_shared_frames = a.anonymous_shared_frames;
  futex_mapping_id = a.futex_mapping_id;
  futex_mapping_start = a.futex_mapping_start;
  size = a.area_page_size;
  frame = get a.data_frames v;
}

unfoldable pub page_at : List (ℕ × MapArea) → ℕ → Option Page
page_at [] v = none
page_at (e ∷ es) v =
    let rest = page_at es v in
    if range_contains e.1.range_start e.1.range_end v then some (page_of e.1 v) else rest

-- From page `lo` on: each area is under its first page and not empty, and none meets another.
abbrev pub Laid : ℕ → List (ℕ × MapArea) → Type 0
Laid lo [] = Unit
Laid lo (e ∷ es) =
    (e.0 ≡ e.1.range_start)
    × (lo ≤ e.1.range_start)
    × (e.1.range_start < e.1.range_end)
    × Laid e.1.range_end es

-- All areas end in the user half.
abbrev pub Below : List (ℕ × MapArea) → Type 0
Below [] = Unit
Below (a ∷ es) = (a.1.range_end * page_size ≤ user_app_max_size) × Below es

pub record WellFormed (ms : MemorySet) : Type 0 where
  pub order : Laid 0 ms.areas
  pub ends : Below ms.areas
