-- ===== src/Mm/Munmap.antt =====
-- `munmap_locked` of os/src/mm/memory_set.rs: the sweep over the areas, and the changes to the tree that
-- it leaves to the end.
use os.Base.{
  ℕ, ◌+◌, Bool, not, ◌&&◌, Option, none, some, List, [], ◌∷◌, ◌++◌, ltb, leb, if◌then◌else◌,
}
use os.Frames.{num_pages}
use os.Mm.Address.{va_from, std_floor, std_ceil}
use os.Mm.Table.{get, insert, remove, split_low, split_high}
use os.Mm.Area.{MapArea, Pages, unmap_pages, clone_meta_with_new_range, resize}
use os.Mm.Space.{MemorySet}

-- What one turn of the sweep leaves: the area in its place, and what it asks for at the end.
pub record Turn : Type 0 where
  pub area : MapArea
  pub pages : Pages
  pub empty_keys : List ℕ
  pub rekey : List (ℕ × ℕ)
  pub new_areas : List MapArea

-- The four cases of an area that the range meets.
unfoldable pub delete_all : ℕ → MapArea → Pages → Turn
unfolding unmap_pages resize
delete_all key a pages =
    let r = unmap_pages (num_pages a.area_page_size) a.range_start a.range_end a pages in
    record {
      area = resize r.0 a.range_start a.range_start;
      pages = r.1;
      empty_keys = key ∷ [];
      rekey = [];
      new_areas = [];
    }

-- The left part has its frames below the range, and the right part those behind it.
abbrev pub left_of : ℕ → ℕ → MapArea → Pages → MapArea
left_of start_vpn end_vpn a pages =
    let r = unmap_pages 1 start_vpn end_vpn a pages in
    resize (record r.0 { data_frames = split_low r.0.data_frames end_vpn }) a.range_start start_vpn

abbrev pub right_of : ℕ → ℕ → MapArea → Pages → MapArea
right_of start_vpn end_vpn a pages =
    let r = unmap_pages 1 start_vpn end_vpn a pages in
    record (clone_meta_with_new_range (left_of start_vpn end_vpn a pages) end_vpn a.range_end) {
      data_frames = split_high r.0.data_frames end_vpn;
    }

unfoldable pub split_middle : ℕ → ℕ → MapArea → Pages → Turn
split_middle start_vpn end_vpn a pages = record {
  area = left_of start_vpn end_vpn a pages;
  pages = (unmap_pages 1 start_vpn end_vpn a pages).1;
  empty_keys = [];
  rekey = [];
  new_areas = right_of start_vpn end_vpn a pages ∷ [];
}

unfoldable pub delete_left_part : ℕ → ℕ → MapArea → Pages → Turn
delete_left_part end_vpn key a pages =
    let r = unmap_pages (num_pages a.area_page_size) a.range_start end_vpn a pages in
    record {
      area = resize r.0 end_vpn a.range_end;
      pages = r.1;
      empty_keys = [];
      rekey = (key, end_vpn) ∷ [];
      new_areas = [];
    }

unfoldable pub delete_right_part : ℕ → MapArea → Pages → Turn
delete_right_part start_vpn a pages =
    let r = unmap_pages (num_pages a.area_page_size) start_vpn a.range_end a pages in
    record {
      area = resize r.0 a.range_start start_vpn;
      pages = r.1;
      empty_keys = [];
      rekey = [];
      new_areas = [];
    }

abbrev pub untouched : MapArea → Pages → Turn
untouched a pages = record { area = a; pages = pages; empty_keys = []; rekey = []; new_areas = [] }

unfoldable pub munmap_area : ℕ → ℕ → ℕ → MapArea → Pages → Turn
munmap_area start_vpn end_vpn key a pages =
    let delete_left : Bool = leb start_vpn a.range_start in
    let delete_right : Bool = leb a.range_end end_vpn in
    if ltb a.range_start end_vpn && ltb start_vpn a.range_end
    then (if delete_left && delete_right
        then delete_all key a pages
        else (if not delete_left && not delete_right
            then split_middle start_vpn end_vpn a pages
            else (if delete_left
                then delete_left_part end_vpn key a pages
                else delete_right_part start_vpn a pages)))
    else untouched a pages

-- The sweep as a whole.
pub record Sweep : Type 0 where
  pub areas : List (ℕ × MapArea)
  pub pages : Pages
  pub empty_keys : List ℕ
  pub rekey : List (ℕ × ℕ)
  pub new_areas : List MapArea

abbrev pub put_turn : ℕ → Turn → Sweep → Sweep
put_turn key t rest = record {
  areas = (key, t.area) ∷ rest.areas;
  pages = rest.pages;
  empty_keys = t.empty_keys ++ rest.empty_keys;
  rekey = t.rekey ++ rest.rekey;
  new_areas = t.new_areas ++ rest.new_areas;
}

unfoldable pub sweep : ℕ → ℕ → List (ℕ × MapArea) → Pages → Sweep
sweep start_vpn end_vpn [] pages = record {
  areas = [];
  pages = pages;
  empty_keys = [];
  rekey = [];
  new_areas = [];
}
sweep start_vpn end_vpn (e ∷ es) pages =
    let t = munmap_area start_vpn end_vpn e.0 e.1 pages in
    put_turn e.0 t (sweep start_vpn end_vpn es t.pages)

unfoldable pub remove_empty : List (ℕ × MapArea) → List ℕ → List (ℕ × MapArea)
remove_empty areas [] = areas
remove_empty areas (key ∷ keys) = remove_empty (remove areas key) keys

unfoldable pub rekey_area : List (ℕ × MapArea) → ℕ → ℕ → List (ℕ × MapArea)
rekey_area areas old_key new_key = elim (get areas old_key) [
  | none ↦ areas
  | some a ↦ insert (remove areas old_key) new_key a
]

unfoldable pub rekey_areas : List (ℕ × MapArea) → List (ℕ × ℕ) → List (ℕ × MapArea)
rekey_areas areas [] = areas
rekey_areas areas (r ∷ rekey) = rekey_areas (rekey_area areas r.0 r.1) rekey

unfoldable pub insert_new : List (ℕ × MapArea) → List MapArea → List (ℕ × MapArea)
insert_new areas [] = areas
insert_new areas (a ∷ more) = insert_new (insert areas a.range_start a) more

unfoldable pub commit : Sweep → List (ℕ × MapArea)
commit s = insert_new (rekey_areas (remove_empty s.areas s.empty_keys) s.rekey) s.new_areas

-- On page numbers.
unfoldable pub munmap_vpns : MemorySet → ℕ → ℕ → MemorySet
munmap_vpns ms start_vpn end_vpn =
    let s = sweep start_vpn end_vpn ms.areas ms.pages in
    record ms { areas = commit s; pages = s.pages }

-- The pages that the addresses stand for.
abbrev pub munmap_range : MemorySet → ℕ → ℕ → MemorySet
munmap_range ms start length =
    munmap_vpns ms (std_floor (va_from start)) (std_ceil (va_from (start + length)))

unfoldable pub munmap_locked : MemorySet → ℕ → ℕ → Option MemorySet
munmap_locked ms start length =
    let ms' = munmap_range ms start length in if ms'.pages.panicked then none else some ms'
