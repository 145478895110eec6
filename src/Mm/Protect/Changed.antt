-- ===== src/Mm/Protect/Changed.antt =====
-- `mprotect` and `mlock_range` of os/src/mm/memory_set.rs change just the pages of their range.
use os.Base.{
  ℕ, ◌+◌, ◌^◌, ◌<◌, ◌≡◌, ◌⊎◌, inl, inr, refl, ◌∙◌, sym, ap, Bool, true, false, ◌&&◌, Option, none,
  some, List, [], ◌∷◌, ltb, leb, ◌==◌, if◌then◌else◌, arith, if_cases, Bool-cases,
}
use mathlib.Core.Path.{subst}
use os.Mm.Address.{user_app_max_size, va_from, std_floor, std_ceil, range_contains}
use os.Mm.Area.{MapArea, MapPermission, Pages}
use os.Mm.Space.{MemorySet, Result, ok, err}
use os.Mm.Mmap.Placed.{in_pages, OnOk, ok-OnOk}
use os.Mm.Protect.{isolate, change_inside, locked, mlock_vpns, mlock_range}
use os.Mm.Protect.Split.{Clear}
use os.Mm.View.Search.{page_at-there}
use os.Mm.Protect.Keys.{MappedAt}
use os.Mm.View.{Page, page_of, page_at, Laid, Below, WellFormed}
use os.Mm.Protect.Isolated.{Checked, isolate-Checked}

abbrev pub changed_page : (Page → Page) → Option Page → Option Page
changed_page change_page none = none
changed_page change_page (some p) = some (change_page p)

-- What an operation that changes the pages of a range does: each of them was in an area, and has been
-- changed; every other page is what it was.
pub record Changes (change_page : Page → Page) (ms : MemorySet) (start length : ℕ) (ms' : MemorySet)
    : Type 0 where
  pub valid : WellFormed ms'
  pub mapped : (v : ℕ) → (in_pages start length v ≡ false) ⊎ MappedAt ms.areas v
  pub pages :
      (v : ℕ)
      → page_at ms'.areas v ≡ (
          if in_pages start length v
          then changed_page change_page (page_at ms.areas v)
          else page_at ms.areas v)

-- A change that keeps where an area is, and does the same to each of its pages.
module _ (change : MapArea → MapArea) (change_page : Page → Page)
    (start : (a : MapArea) → (change a).range_start ≡ a.range_start)
    (end : (a : MapArea) → (change a).range_end ≡ a.range_end)
    (page : (a : MapArea) (v : ℕ) → page_of (change a) v ≡ change_page (page_of a v)) where
  pub change_inside-Laid :
      (lo s t : ℕ) (es : List (ℕ × MapArea)) → Laid lo es → Laid lo (change_inside change s t es)
  unfolding change_inside
  change_inside-Laid lo s t [] l = tt
  change_inside-Laid lo s t (e ∷ es) (same, above, some_pages, l) =
      let later = change_inside-Laid e.1.range_end s t es l in
      if_cases (Laid lo)
        ((leb s e.0 && ltb e.0 t) && (leb s e.1.range_start && leb e.1.range_end t))
        (λ _. (
          same ∙ sym (start e.1),
          omega (arith, start e.1),
          omega (arith, start e.1, end e.1),
          subst (λ k. Laid k (change_inside change s t es)) (sym (end e.1)) later,
        ))
        (λ _. (same, above, some_pages, later))

  pub change_inside-Clear :
      (k s t : ℕ) (es : List (ℕ × MapArea)) → Clear k es → Clear k (change_inside change s t es)
  unfolding change_inside
  change_inside-Clear k s t [] c = tt
  change_inside-Clear k s t (e ∷ es) (c, cs) =
      let later = change_inside-Clear k s t es cs in
      if_cases (Clear k)
        ((leb s e.0 && ltb e.0 t) && (leb s e.1.range_start && leb e.1.range_end t))
        (λ _. (ground (arith, start e.1, end e.1, c), later)) (λ _. (c, later))

  change_inside-Below :
      (s t : ℕ) (es : List (ℕ × MapArea)) → Below es → Below (change_inside change s t es)
  unfolding change_inside
  change_inside-Below s t [] b = tt
  change_inside-Below s t (e ∷ es) (b, bs) =
      let later = change_inside-Below s t es bs in
      if_cases Below ((leb s e.0 && ltb e.0 t) && (leb s e.1.range_start && leb e.1.range_end t))
        (λ _. (omega (arith, end e.1), later)) (λ _. (b, later))

  pub page_at-change_inside :
      (lo s t v : ℕ) (es : List (ℕ × MapArea))
      → Laid lo es
      → Clear s es
      → Clear t es
      → page_at (change_inside change s t es) v
        ≡ (if range_contains s t v then changed_page change_page (page_at es v) else page_at es v)
  unfolding change_inside page_at
  page_at-change_inside lo s t v [] l c d = ground arith
  page_at-change_inside lo s t v (e ∷ es) (same, above, some_pages, l) (c, cs) (d, ds) =
      let later = page_at-change_inside e.1.range_end s t v es l cs ds in
      if_cases
        (λ (r : List (ℕ × MapArea)). page_at r v ≡ (
          if range_contains s t v
          then changed_page change_page (page_at (e ∷ es) v)
          else page_at (e ∷ es) v))
        ((leb s e.0 && ltb e.0 t) && (leb s e.1.range_start && leb e.1.range_end t))
        (λ within. elim (Bool-cases (range_contains e.1.range_start e.1.range_end v)) [
          | inl i ↦
              let r : range_contains s t v ≡ true = ground arith in
              there e.1 (change_inside change s t es) v i ∙ rw (r, i) refl
          | inr i ↦ past e.1 (change_inside change s t es) v i ∙ rw i later
        ])
        (λ without. elim (Bool-cases (range_contains e.1.range_start e.1.range_end v)) [
          | inl i ↦ let r : range_contains s t v ≡ false = ground arith in rw (r, i) refl
          | inr i ↦ rw i later
        ])
    where
      there :
          (a : MapArea) (rest : List (ℕ × MapArea)) (v : ℕ)
          → range_contains a.range_start a.range_end v ≡ true
          → page_at ((e.0, change a) ∷ rest) v ≡ some (change_page (page_of a v))
      there a rest v i =
          let here : range_contains (change a).range_start (change a).range_end v ≡ true =
            rw (start a, end a) i in
          page_at-there (e.0, change a) rest v here ∙ ap some (page a v)

      past :
          (a : MapArea) (rest : List (ℕ × MapArea)) (v : ℕ)
          → range_contains a.range_start a.range_end v ≡ false
          → page_at ((e.0, change a) ∷ rest) v ≡ page_at rest v
      past a rest v i = rw (start a, end a, i) refl

  pub isolate-Changes :
      (ms : MemorySet) (start_va length : ℕ) (write : Bool) (areas : List (ℕ × MapArea))
      (pages : Pages)
      → WellFormed ms
      → 0 < length
      → start_va + length < user_app_max_size
      → isolate ms.areas (std_floor start_va) (std_ceil (start_va + length)) write ≡ ok areas
      → Changes change_page ms start_va length (record ms {
        areas = change_inside change (std_floor start_va) (std_ceil (start_va + length)) areas;
        pages = pages;
      })
  isolate-Changes ms start_va length write areas pages w n b e =
      let s : ℕ = std_floor start_va in
      let t : ℕ = std_ceil (start_va + length) in
      let (i, mapped) =
        ok-OnOk (Checked ms.areas s t (omega arith) w.order w.ends) (isolate ms.areas s t write)
          areas (isolate-Checked ms.areas s t (omega arith) w.order w.ends write) e in
      record {
        valid = record {
          order = change_inside-Laid 0 s t areas i.order;
          ends = change_inside-Below s t areas i.ends;
        };
        mapped = mapped;
        pages = λ v.
            page_at-change_inside 0 s t v areas i.order i.clear_s i.clear_t
            ∙ ap (λ p. if range_contains s t v then changed_page change_page p else p) (i.pages v);
      }

abbrev pub with_page_perm : MapPermission → Page → Page
with_page_perm perm p = record p { map_perm = perm }

abbrev pub locked_page : Page → Page
locked_page p = record p { is_locked = true }

pub on_isolated :
    (P : MemorySet → Type 0) (r : Result (List (ℕ × MapArea)))
    (next : List (ℕ × MapArea) → MemorySet)
    → ((areas : List (ℕ × MapArea)) → r ≡ ok areas → P (next areas))
    → OnOk P (elim r [ err e ↦ err e | ok areas ↦ ok (next areas) ])
on_isolated P (err e) next f = tt
on_isolated P (ok areas) next f = f areas refl

module _ (ms : MemorySet) (start length : ℕ) (w : WellFormed ms) (n : 0 < length)
    (b : start + length < user_app_max_size) where
  mlock_vpns-Changes :
      OnOk
        (Changes locked_page ms start length)
        (mlock_vpns ms (std_floor start) (std_ceil (start + length)))
  unfolding mlock_vpns
  mlock_vpns-Changes =
      let s : ℕ = std_floor start in
      let t : ℕ = std_ceil (start + length) in
      on_isolated (Changes locked_page ms start length) (isolate ms.areas s t false)
        (λ areas. record ms { areas = change_inside locked s t areas })
        (λ areas i.
          isolate-Changes locked locked_page (λ _. refl) (λ _. refl) (λ _ _. refl) ms start length
            false areas ms.pages w n b i)

  nonzero : (length == 0) ≡ false
  nonzero = ground arith

  small : ltb (start + length) (2 ^ 64) ≡ true
  small = ground arith

  floor : va_from start ≡ start
  floor = omega arith

  ceil : va_from (start + length) ≡ start + length
  ceil = omega arith

  -- `mlock_range` of a range of positive length in the user half of a well-formed address space, when it
  -- succeeds: every page of the range was in an area, and is locked now and otherwise unchanged. Every
  -- other page is what it was, and the areas stay well formed.
  pub mlock_range-Changes :
      (ms' : MemorySet)
      → mlock_range ms start length ≡ ok ms'
      → Changes locked_page ms start length ms'
  unfolding mlock_range
  mlock_range-Changes ms' e =
      let P : MemorySet → Type 0 = Changes locked_page ms start length in
      let here : OnOk P (mlock_range ms start length) =
        rw (mlock_range, nonzero, small, floor, ceil) mlock_vpns-Changes in
      ok-OnOk P (mlock_range ms start length) ms' here e
