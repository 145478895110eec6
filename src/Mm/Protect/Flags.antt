-- ===== src/Mm/Protect/Flags.antt =====
-- `mprotect` of os/src/mm/memory_set.rs changes the pages of its range, and their entries.
use os.Base.{
  ℕ, ◌+◌, ◌^◌, ◌<◌, ◌≡◌, refl, ◌∙◌, ap, Bool, true, false, Option, none, some, List, ltb, ◌==◌,
  if◌then◌else◌, arith,
}
use os.Mm.Address.{user_app_max_size, va_from, std_floor, std_ceil, range_contains}
use os.Mm.Area.{MapArea, MapPermission, Pages, Pte}
use os.Mm.Space.{MemorySet, ok}
use os.Mm.Mmap.{MmapProt, permission_of}
use os.Mm.Mmap.Placed.{in_pages, OnOk, ok-OnOk}
use os.Mm.Protect.{isolate, change_inside, change_ptes, with_perm, mprotect_vpns, mprotect}
use os.Mm.Protect.Isolated.{Checked, isolate-Checked}
use os.Mm.Protect.Entries.{with_flags, entry_permission, own_flags, small_page, change_ptes_lem}
use os.Mm.Protect.Changed.{
  changed_page, Changes, with_page_perm, on_isolated, change_inside-Laid, change_inside-Clear,
  page_at-change_inside, isolate-Changes,
}
use os.Mm.View.{Page, page_at, WellFormed}

-- The entry of a page under new permissions.
abbrev pub new_flags : MapPermission → Option Page → Option Pte → Option Pte
new_flags perm none entry = entry
new_flags perm (some p) entry = with_flags (entry_permission p.page_cache_cow perm) entry

new_flags_eq :
    (perm : MapPermission) (b : Bool) (p : Option Page) (entry : Option Pte)
    → (if b then own_flags (if b then changed_page (with_page_perm perm) p else p) entry else entry)
      ≡ (if b then new_flags perm p entry else entry)
new_flags_eq perm true none entry = refl
new_flags_eq perm true (some p) entry = refl
new_flags_eq perm false p entry = refl

small_changed :
    (perm : MapPermission) (b : Bool) (p : Option Page)
    → small_page p ≡ true
    → small_page (if b then changed_page (with_page_perm perm) p else p) ≡ true
small_changed perm true none e = e
small_changed perm true (some p) e = e
small_changed perm false p e = e

-- What `mprotect` does when it succeeds.
pub record Protects (perm : MapPermission) (ms : MemorySet) (start length : ℕ) (ms' : MemorySet)
    : Type 0 where
  pub changes : Changes (with_page_perm perm) ms start length ms'
  pub entries :
      (v : ℕ)
      → ms'.pages.page_table v ≡ (
          if in_pages start length v
          then new_flags perm (page_at ms.areas v) (ms.pages.page_table v)
          else ms.pages.page_table v)

module _ (ms : MemorySet) (start length : ℕ) (w : WellFormed ms)
    (small : (v : ℕ) → small_page (page_at ms.areas v) ≡ true) (n : 0 < length)
    (b : start + length < user_app_max_size) where
  -- After the splits.
  changed-entries :
      (perm : MapPermission) (areas : List (ℕ × MapArea)) (v : ℕ)
      → isolate ms.areas (std_floor start) (std_ceil (start + length)) perm.w ≡ ok areas
      → change_ptes
          (std_floor start)
          (std_ceil (start + length))
          (change_inside (with_perm perm) (std_floor start) (std_ceil (start + length)) areas)
          ms.pages.page_table
          v
        ≡ (if in_pages start length v
            then new_flags perm (page_at ms.areas v) (ms.pages.page_table v)
            else ms.pages.page_table v)
  changed-entries perm areas v e =
      let s : ℕ = std_floor start in
      let t : ℕ = std_ceil (start + length) in
      let (i, _) =
        ok-OnOk (Checked ms.areas s t (omega arith) w.order w.ends) (isolate ms.areas s t perm.w)
          areas (isolate-Checked ms.areas s t (omega arith) w.order w.ends perm.w) e in
      let page : (v : ℕ)
          → page_at (change_inside (with_perm perm) s t areas) v ≡ (
              if range_contains s t v
              then changed_page (with_page_perm perm) (page_at ms.areas v)
              else page_at ms.areas v) =
        λ v.
          page_at-change_inside (with_perm perm) (with_page_perm perm) (λ _. refl) (λ _. refl)
            (λ _ _. refl) 0 s t v areas i.order i.clear_s i.clear_t
          ∙ ap (λ p. if range_contains s t v then changed_page (with_page_perm perm) p else p)
              (i.pages v) in
      change_ptes_lem 0 s t (change_inside (with_perm perm) s t areas) ms.pages.page_table v
        (change_inside-Laid (with_perm perm) (with_page_perm perm) (λ _. refl) (λ _. refl)
          (λ _ _. refl) 0 s t areas i.order)
        (change_inside-Clear (with_perm perm) (with_page_perm perm) (λ _. refl) (λ _. refl)
          (λ _ _. refl) s s t areas i.clear_s)
        (change_inside-Clear (with_perm perm) (with_page_perm perm) (λ _. refl) (λ _. refl)
          (λ _ _. refl) t s t areas i.clear_t)
        (λ v.
          ap small_page (page v)
          ∙ small_changed perm (range_contains s t v) (page_at ms.areas v) (small v))
      ∙ ap
          (λ p.
            if range_contains s t v
            then own_flags p (ms.pages.page_table v)
            else ms.pages.page_table v)
          (page v)
      ∙ new_flags_eq perm (range_contains s t v) (page_at ms.areas v) (ms.pages.page_table v)

  mprotect_vpns-Protects :
      (perm : MapPermission)
      → OnOk
          (Protects perm ms start length)
          (mprotect_vpns ms (std_floor start) (std_ceil (start + length)) perm)
  unfolding mprotect_vpns
  mprotect_vpns-Protects perm =
      let s : ℕ = std_floor start in
      let t : ℕ = std_ceil (start + length) in
      let pages_of : List (ℕ × MapArea) → Pages = λ areas. record ms.pages {
        page_table = change_ptes s t (change_inside (with_perm perm) s t areas) ms.pages.page_table;
      } in
      on_isolated (Protects perm ms start length) (isolate ms.areas s t perm.w)
        (λ areas. record ms {
          areas = change_inside (with_perm perm) s t areas;
          pages = pages_of areas;
        })
        (λ areas i. record {
          changes =
              isolate-Changes (with_perm perm) (with_page_perm perm) (λ _. refl) (λ _. refl)
                (λ _ _. refl) ms start length perm.w areas (pages_of areas) w n b i;
          entries = λ v. changed-entries perm areas v i;
        })

  nonzero : (length == 0) ≡ false
  nonzero = ground arith

  no_overflow : ltb (start + length) (2 ^ 64) ≡ true
  no_overflow = ground arith

  floor : va_from start ≡ start
  floor = omega arith

  ceil : va_from (start + length) ≡ start + length
  ceil = omega arith

  -- `mprotect` of a range of positive length in the user half of a well-formed address space with pages
  -- of the small size, when it succeeds: every page of the range was in an area, and has the new
  -- permissions now and is otherwise unchanged; a valid entry of it in the page table has just those
  -- permissions as its flags, but no right to write while the page is to be copied first, and keeps its
  -- frame. Every other page and entry is what it was, and the areas stay well formed.
  pub mprotect-Protects :
      (prot : MmapProt) (ms' : MemorySet)
      → mprotect ms start length prot ≡ ok ms'
      → Protects (permission_of prot) ms start length ms'
  unfolding mprotect
  mprotect-Protects prot ms' e =
      let P : MemorySet → Type 0 = Protects (permission_of prot) ms start length in
      let here : OnOk P (mprotect ms start length prot) =
        rw (mprotect, nonzero, no_overflow, floor, ceil)
          (mprotect_vpns-Protects (permission_of prot)) in
      ok-OnOk P (mprotect ms start length prot) ms' here e
