-- ===== src/Mm/Mmap/Mapped.antt =====
-- `mmap` of os/src/mm/memory_set.rs: where the new mapping is, and what it does to every page.
use mathlib.Core.Path.{ap₂}
use os.Base.{
  ℕ, ◌+◌, ◌-◌, ◌/◌, ◌%◌, ◌<◌, ◌≡◌, ◌⊎◌, refl, ◌∙◌, ap, Bool, true, false, ◌&&◌, Option, none, some,
  if◌then◌else◌, arith,
}
use os.Mm.Address.{page_size, user_app_max_size, va_from, std_floor, std_ceil, range_contains}
use os.Frames.{page_4k}
use os.Mm.Table.{get}
use os.Mm.Area.{File, MapArea, MapPermission, framed, file, empty_pte}
use os.Mm.View.Swept.{page_backed}
use os.Mm.Space.{MemorySet, Result, ok, err, any_overlap}
use os.Mm.Mmap.{
  MmapProt, MmapFlags, permission_of, file_of, choose_address, new_area, add_area, mmap_file, mmap,
}
use os.Mm.View.{Page, page_of, page_at, WellFormed}
use os.Mm.View.Inserted.{insert-Laid, insert-Below, page_at-insert}
use os.Mm.Mmap.Placed.{in_pages, OnRun, Running, Placed, choose_address-Placed}

-- A page of a new mapping: nothing is in memory yet.
abbrev pub fresh_page : Option File → MapPermission → Bool → ℕ → ℕ → ℕ → ℕ → Page
fresh_page f perm shared page_offset id start v = record {
  map_type = elim f [ none ↦ framed | some _ ↦ file ];
  map_perm = perm;
  is_shared = shared;
  is_locked = false;
  file_page = elim f [ none ↦ none | some g ↦ some (g, page_offset + (v - start)) ];
  page_cache_cow = false;
  file_zero_from = none;
  anonymous_shared_frames = elim f [ none ↦ if shared then some id else none | some _ ↦ none ];
  futex_mapping_id = id;
  futex_mapping_start = start;
  size = page_4k;
  frame = none;
}

-- What `mmap` does when it returns the address `a`.
pub record Mapped (ms : MemorySet) (addr length : ℕ) (prot : MmapProt) (flags : MmapFlags)
    (f : Option File) (offset a : ℕ) (ms' : MemorySet) : Type 0 where
  pub hint : (addr ≡ 0) ⊎ (a ≡ addr)
  pub bound : a + length < user_app_max_size
  pub aligned : a % page_size ≡ 0
  pub order : WellFormed ms'
  pub replaced :
      (flags.map_fixed ≡ true)
      ⊎ (any_overlap ms.areas (std_floor a) (std_ceil (a + length)) ≡ false)
  pub entries :
      (v : ℕ)
      → ms'.pages.page_table v ≡ (
          if in_pages a length v && page_backed (page_at ms.areas v)
          then some empty_pte
          else ms.pages.page_table v)
  pub pages :
      (v : ℕ)
      → page_at ms'.areas v ≡ (
          if in_pages a length v
          then some (
              fresh_page f
                (permission_of prot)
                flags.map_shared
                (offset / page_size)
                ms.next_mapping_id
                (std_floor a)
                v)
          else page_at ms.areas v)

same_branch :
    {A : Type 0} (b : Bool) (x x' y y' : Option A)
    → x ≡ x'
    → y' ≡ (if b then none else y)
    → (if b then x else y') ≡ (if b then x' else y)
same_branch true x x' y y' e f = e
same_branch false x x' y y' e f = f

area-Mapped :
    (ms : MemorySet) (addr length : ℕ) (prot : MmapProt) (flags : MmapFlags) (f : Option File)
    (offset a : ℕ) (ms' : MemorySet) (area : MapArea)
    → 0 < length
    → Placed ms addr length flags.map_fixed a ms'
    → area.range_start ≡ std_floor a
    → area.range_end ≡ std_ceil (a + length)
    → ((v : ℕ)
        → page_of area v
          ≡ fresh_page f
              (permission_of prot)
              flags.map_shared
              (offset / page_size)
              ms'.next_mapping_id
              (std_floor a)
              v)
    → Mapped ms addr length prot flags f offset a (add_area ms' area)
area-Mapped ms addr length prot flags f offset a ms' area n p s e page =
    let free : any_overlap ms'.areas area.range_start area.range_end ≡ false = rw (s, e) p.free in
    let some_pages : area.range_start < area.range_end = omega arith in
    record {
      hint = p.hint;
      bound = p.bound;
      aligned = p.aligned;
      order = record {
        order = insert-Laid 0 ms'.areas area p.order.order (omega arith) some_pages free;
        ends =
            insert-Below ms'.areas area.range_start area p.order.ends (omega (arith, p.bound, e));
      };
      replaced = p.replaced;
      entries = p.entries;
      pages = λ v.
          page_at-insert 0 ms'.areas area v p.order.order some_pages free
          ∙ ap₂ (λ l r. if range_contains l r v then some (page_of area v) else page_at ms'.areas v)
              s e
          ∙ same_branch (in_pages a length v) _ _ (page_at ms.areas v) _
              (ap some (page v)
                ∙ ap
                    (λ i. some (
                      fresh_page f (permission_of prot) flags.map_shared (offset / page_size) i
                        (std_floor a) v))
                    p.ids)
              (p.pages v);
    }

add_area-Mapped :
    (ms : MemorySet) (addr length : ℕ) (prot : MmapProt) (flags : MmapFlags) (f : Option File)
    (offset a : ℕ) (ms' : MemorySet)
    → 0 < length
    → Placed ms addr length flags.map_fixed a ms'
    → Mapped ms addr length prot flags f offset a (
        add_area ms' (
          new_area a length
            (permission_of prot)
            flags.map_shared
            f
            (offset / page_size)
            ms'.next_mapping_id))
unfolding get
add_area-Mapped ms addr length prot flags none offset a ms' n p =
    let b : a + length < user_app_max_size = p.bound in
    let floor : va_from a ≡ a = omega arith in
    let ceil : va_from (a + length) ≡ a + length = omega arith in
    area-Mapped ms addr length prot flags none offset a ms'
      (new_area a length (permission_of prot) flags.map_shared none (offset / page_size)
        ms'.next_mapping_id)
      n p (ap std_floor floor) (ap std_ceil ceil) (λ v. rw floor refl)
add_area-Mapped ms addr length prot flags (some f) offset a ms' n p =
    let b : a + length < user_app_max_size = p.bound in
    let floor : va_from a ≡ a = omega arith in
    let ceil : va_from (a + length) ≡ a + length = omega arith in
    area-Mapped ms addr length prot flags (some f) offset a ms'
      (new_area a length (permission_of prot) flags.map_shared (some f) (offset / page_size)
        ms'.next_mapping_id)
      n p (ap std_floor floor) (ap std_ceil ceil) (λ v. rw floor refl)

mmap_file-Mapped :
    (ms : MemorySet) (addr length : ℕ) (prot : MmapProt) (flags : MmapFlags) (f : Option File)
    (offset : ℕ) (r : Option (Result (ℕ × MemorySet)))
    → 0 < length
    → OnRun (λ (x : ℕ × MemorySet). Placed ms addr length flags.map_fixed x.0 x.1) r
    → OnRun
        (λ (x : ℕ × MemorySet). Mapped ms addr length prot flags f offset x.0 x.1)
        (elim r [
          | none ↦ none
          | some (err e) ↦ some (err e)
          | some (ok (start, ms')) ↦ some (
              ok (
                start,
                add_area ms' (
                    new_area start length
                      (permission_of prot)
                      flags.map_shared
                      f
                      (offset / page_size)
                      ms'.next_mapping_id),
              ))
        ])
mmap_file-Mapped ms addr length prot flags f offset (some (err e)) n p = tt
mmap_file-Mapped ms addr length prot flags f offset none n p = p
mmap_file-Mapped ms addr length prot flags f offset (some (ok (a, ms'))) n p =
    add_area-Mapped ms addr length prot flags f offset a ms' n p

-- `mmap` of a positive length at a page-aligned address, or at 0, below the end of the user half of an
-- address space of user areas, with pages of the small size and a valid entry for each page that has a
-- frame, does not panic. When it returns an address, that is the one asked for unless this was 0, is
-- page-aligned, and the range ends in the user half. Each page of the range is then a fresh page of the
-- mapping, with the permissions asked for and its page of the file, and has an empty entry if it had a
-- frame; every other page is what it was, and the areas stay well formed. Unless `MAP_FIXED` was given,
-- no page of the range was mapped before.
pub mmap_lem :
    (ms : MemorySet) (addr length : ℕ) (prot : MmapProt) (flags : MmapFlags)
    (file_inner file_opt : Option File) (offset : ℕ)
    → WellFormed ms
    → Running ms
    → 0 < length
    → addr % page_size ≡ 0
    → addr + length < user_app_max_size
    → file_of flags file_inner ≡ ok file_opt
    → OnRun
        (λ (x : ℕ × MemorySet). Mapped ms addr length prot flags file_opt offset x.0 x.1)
        (mmap ms addr length prot flags file_inner offset)
unfolding mmap mmap_file
mmap_lem ms addr length prot flags file_inner file_opt offset l run n m b f =
    let placed = choose_address-Placed ms addr length flags.map_fixed l run n m b in
    rw (mmap, f)
      (mmap_file-Mapped ms addr length prot flags file_opt offset
        (choose_address ms addr length flags.map_fixed) n placed)
