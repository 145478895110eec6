-- ===== src/Mm/Mmap/Placed.antt =====
-- Where `mmap` of os/src/mm/memory_set.rs puts a mapping, and `munmap_locked` by addresses.
use mathlib.Core.Path.{subst}
use os.Base.{
  ℕ, ◌+◌, ◌%◌, ◌<◌, ◌≡◌, ◌⊎◌, inl, inr, refl, sym, ◌∙◌, ◌++◌, Bool, true, false, ◌&&◌, Option, none,
  some, ◌==◌, if◌then◌else◌, arith, if_cases, option_split, Bool-cases,
}
use os.Mm.Address.{page_size, user_app_max_size, va_from, std_floor, std_ceil, range_contains}
use os.Mm.Space.{
  MemorySet, Result, ok, err, eexist, any_overlap, has_conflict_locked, find_free_area_locked,
}
use os.Mm.Munmap.{munmap_locked, munmap_range, munmap_vpns}
use os.Mm.Area.{empty_pte}
use os.Mm.View.Entries.{Clears}
use os.Mm.View.Logs.{Logs, frames_in, files_in, sweep-Logs}
use os.Mm.View.Swept.{Resident, page_backed, sweep-Clears}
use os.Mm.Mmap.{choose_address}
use os.Mm.View.{Page, page_at, WellFormed}
use os.Mm.View.Search.{any_overlap-none, any_overlap-some, find_free_from-free}
use os.Mm.View.Unmapped.{munmap_vpns-page_at, munmap_vpns-Laid, munmap_vpns-Below}

-- The pages of an address range.
abbrev pub in_pages : ℕ → ℕ → ℕ → Bool
in_pages a length v = range_contains (std_floor a) (std_ceil (a + length)) v

-- What holds of a result that is not an error.
abbrev pub OnOk {ℓ κ} : {A : Type ℓ} → (A → Type κ) → Result A → Type κ
OnOk P (ok x) = P x
OnOk P (err e) = Unit

-- What holds of a run that does not panic, and whose result is not an error.
abbrev pub OnRun {ℓ} : {A : Type ℓ} → (A → Type 0) → Option (Result A) → Type 0
OnRun P none = ⊥
OnRun P (some r) = OnOk P r

pub ok-OnOk {ℓ κ} : {A : Type ℓ} (P : A → Type κ) (r : Result A) (x : A) → OnOk P r → r ≡ ok x → P x
ok-OnOk P r x h e = subst (OnOk P) e h

-- The pages of the range are in no area, and every other page has what it had: its kind, its
-- permissions, its frame, and its page of the file.
munmap_range-page_at :
    (ms : MemorySet) (start length v : ℕ)
    → start + length < user_app_max_size
    → WellFormed ms
    → page_at (munmap_range ms start length).areas v
      ≡ (if in_pages start length v then none else page_at ms.areas v)
munmap_range-page_at ms start length v h l =
    let floor : va_from start ≡ start = omega arith in
    let ceil : va_from (start + length) ≡ start + length = omega arith in
    rw (floor, ceil)
      (munmap_vpns-page_at ms (std_floor start) (std_ceil (start + length)) v (omega arith) l.order)

-- The areas stay in the order of their first pages, none of them empty, no two with a page in common, and
-- all in the user half.
munmap_range-WellFormed :
    (ms : MemorySet) (start length : ℕ)
    → start + length < user_app_max_size
    → WellFormed ms
    → WellFormed (munmap_range ms start length)
munmap_range-WellFormed ms start length h w =
    let floor : va_from start ≡ start = omega arith in
    let ceil : va_from (start + length) ≡ start + length = omega arith in
    rw (floor, ceil)
      (record {
        order =
            munmap_vpns-Laid ms (std_floor start) (std_ceil (start + length)) (omega arith) w.order;
        ends =
            munmap_vpns-Below ms (std_floor start) (std_ceil (start + length)) (omega arith) w.order
              w.ends;
      })

-- The kernel runs, and the pages of the areas that have frames have entries.
pub record Running (ms : MemorySet) : Type 0 where
  pub running : ms.pages.panicked ≡ false
  pub resident : Resident ms.pages.page_table ms.areas

munmap_range-Clears :
    (ms : MemorySet) (start length : ℕ)
    → start + length < user_app_max_size
    → WellFormed ms
    → Running ms
    → Clears
        (λ v. in_pages start length v && page_backed (page_at ms.areas v))
        ms.pages
        (munmap_range ms start length).pages
unfolding munmap_vpns
munmap_range-Clears ms start length h w r =
    let floor : va_from start ≡ start = omega arith in
    let ceil : va_from (start + length) ≡ start + length = omega arith in
    rw (floor, ceil)
      (sweep-Clears (std_floor start) (std_ceil (start + length)) 0 ms.areas ms.pages w.order
        r.resident)

munmap_locked-munmap_range :
    (ms : MemorySet) (start length : ℕ)
    → start + length < user_app_max_size
    → WellFormed ms
    → Running ms
    → munmap_locked ms start length ≡ some (munmap_range ms start length)
unfolding munmap_locked
munmap_locked-munmap_range ms start length h w r =
    let runs : (munmap_range ms start length).pages.panicked ≡ false =
      (munmap_range-Clears ms start length h w r).0 ∙ r.running in
    rw runs refl

munmap_range-Logs :
    (ms : MemorySet) (start length : ℕ)
    → start + length < user_app_max_size
    → WellFormed ms
    → Running ms
    → Logs
        (frames_in (std_floor start) (std_ceil (start + length)) ms.areas)
        (files_in (std_floor start) (std_ceil (start + length)) ms.areas)
        ms.pages
        (munmap_range ms start length).pages
unfolding munmap_vpns
munmap_range-Logs ms start length h w r =
    let floor : va_from start ≡ start = omega arith in
    let ceil : va_from (start + length) ≡ start + length = omega arith in
    rw (floor, ceil)
      (sweep-Logs ms.pages.page_table (std_floor start) (std_ceil (start + length)) 0 ms.areas
        ms.pages (omega arith) w.order r.resident)

-- What `munmap_locked` leaves: the areas and the page table have nothing at the pages of the range, and
-- at all others what they had.
pub record Unmapped (ms : MemorySet) (start length : ℕ) (ms' : MemorySet) : Type 0 where
  pub valid : WellFormed ms'
  pub running : ms'.pages.panicked ≡ false
  pub pages :
      (v : ℕ) → page_at ms'.areas v ≡ (if in_pages start length v then none else page_at ms.areas v)
  pub entries :
      (v : ℕ)
      → ms'.pages.page_table v ≡ (
          if in_pages start length v && page_backed (page_at ms.areas v)
          then some empty_pte
          else ms.pages.page_table v)
  pub released :
      ms'.pages.released
      ≡ ms.pages.released ++ frames_in (std_floor start) (std_ceil (start + length)) ms.areas
  pub written_back :
      ms'.pages.written_back
      ≡ ms.pages.written_back ++ files_in (std_floor start) (std_ceil (start + length)) ms.areas

-- `munmap_locked` of a range in the user half of an address space of user areas, with pages of the small
-- size and a valid entry for each page that has a frame, does not panic. The pages of the range are in
-- no area then, and those that had a frame have an empty entry. Every other page has what it had: its
-- kind, its permissions, its frame, its page of the file and its entry. The frames of the range's pages are
-- to be released, and the pages of shared files among them were written back, each once and in the order
-- of the pages. The areas stay in the order of
-- their first pages, none of them empty, no two with a page in common, and all in the user half.
pub munmap_locked-Unmapped :
    (ms : MemorySet) (start length : ℕ)
    → start + length < user_app_max_size
    → WellFormed ms
    → Running ms
    → (ms' : MemorySet) × (munmap_locked ms start length ≡ some ms') × Unmapped ms start length ms'
munmap_locked-Unmapped ms start length h w r =
    let (runs, table) = munmap_range-Clears ms start length h w r in
    (
      munmap_range ms start length,
      munmap_locked-munmap_range ms start length h w r,
      record {
        valid = munmap_range-WellFormed ms start length h w;
        running = runs ∙ r.running;
        pages = λ v. munmap_range-page_at ms start length v h w;
        entries = table;
        released = (munmap_range-Logs ms start length h w r).0;
        written_back = (munmap_range-Logs ms start length h w r).1;
      },
    )

-- The place that `mmap` makes for a mapping.
pub record Placed (ms : MemorySet) (addr length : ℕ) (fixed : Bool) (a : ℕ) (ms' : MemorySet)
    : Type 0 where
  pub hint : (addr ≡ 0) ⊎ (a ≡ addr)
  pub replaced :
      (fixed ≡ true) ⊎ (any_overlap ms.areas (std_floor a) (std_ceil (a + length)) ≡ false)
  pub bound : a + length < user_app_max_size
  pub aligned : a % page_size ≡ 0
  pub order : WellFormed ms'
  pub free : any_overlap ms'.areas (std_floor a) (std_ceil (a + length)) ≡ false
  pub pages :
      (v : ℕ) → page_at ms'.areas v ≡ (if in_pages a length v then none else page_at ms.areas v)
  pub ids : ms'.next_mapping_id ≡ ms.next_mapping_id
  pub entries :
      (v : ℕ)
      → ms'.pages.page_table v ≡ (
          if in_pages a length v && page_backed (page_at ms.areas v)
          then some empty_pte
          else ms.pages.page_table v)

-- Free space is a place.
free-Placed :
    (ms : MemorySet) (addr length : ℕ) (fixed : Bool) (a : ℕ)
    → (addr ≡ 0) ⊎ (a ≡ addr)
    → a + length < user_app_max_size
    → a % page_size ≡ 0
    → WellFormed ms
    → any_overlap ms.areas (std_floor a) (std_ceil (a + length)) ≡ false
    → Placed ms addr length fixed a ms
free-Placed ms addr length fixed a hint b m l f = record {
  hint = hint;
  replaced = inr f;
  bound = b;
  aligned = m;
  order = l;
  free = f;
  pages = λ v.
      if_cases (λ (o : Option Page). page_at ms.areas v ≡ o) (in_pages a length v)
        (λ e.
          any_overlap-none ms.areas (std_floor a) (std_ceil (a + length)) v f (ground arith)
            (ground arith))
        (λ e. refl);
  ids = refl;
  entries = λ v. elim (Bool-cases (in_pages a length v)) [
    | inl i ↦
        let nothing : page_at ms.areas v ≡ none =
          any_overlap-none ms.areas (std_floor a) (std_ceil (a + length)) v f (ground (arith, i))
            (ground (arith, i)) in
        rw (i, nothing) refl
    | inr i ↦ rw i refl
  ];
}

none-some : (p : Page) → none ≡ some p → ⊥
none-some p e = cc

munmap_range-ids :
    (ms : MemorySet) (start length : ℕ)
    → (munmap_range ms start length).next_mapping_id ≡ ms.next_mapping_id
unfolding munmap_vpns
munmap_range-ids ms start length = refl

-- So is a range that was unmapped.
munmap_range-Placed :
    (ms : MemorySet) (length a : ℕ)
    → 0 < length
    → a + length < user_app_max_size
    → a % page_size ≡ 0
    → WellFormed ms
    → Running ms
    → Placed ms a length true a (munmap_range ms a length)
munmap_range-Placed ms length a n b m l r = record {
  hint = inr refl;
  replaced = inl refl;
  bound = b;
  aligned = m;
  order = munmap_range-WellFormed ms a length b l;
  free = clear (Bool-cases (any_overlap after.areas (std_floor a) (std_ceil (a + length))));
  pages = λ v. munmap_range-page_at ms a length v b l;
  ids = munmap_range-ids ms a length;
  entries = (munmap_range-Clears ms a length b l r).1;
}
  where
    after : MemorySet
    after = munmap_range ms a length

    clear :
        (any_overlap after.areas (std_floor a) (std_ceil (a + length)) ≡ true)
          ⊎ (any_overlap after.areas (std_floor a) (std_ceil (a + length)) ≡ false)
        → any_overlap after.areas (std_floor a) (std_ceil (a + length)) ≡ false
    clear (inr e) = e
    clear (inl e) =
        let (v, h, k, p, e') =
          any_overlap-some 0 after.areas (std_floor a) (std_ceil (a + length))
            (munmap_range-WellFormed ms a length b l).order (omega arith) e in
        let inside : in_pages a length v ≡ true = ground arith in
        let gone : page_at after.areas v ≡ none =
          munmap_range-page_at ms a length v b l ∙ rw inside refl in
        absurd (none-some p (sym gone ∙ e'))

pub choose_address-Placed :
    (ms : MemorySet) (addr length : ℕ) (fixed : Bool)
    → WellFormed ms
    → Running ms
    → 0 < length
    → addr % page_size ≡ 0
    → addr + length < user_app_max_size
    → OnRun
        (λ (r : ℕ × MemorySet). Placed ms addr length fixed r.0 r.1)
        (choose_address ms addr length fixed)
unfolding choose_address
choose_address-Placed ms addr length fixed l run n m b =
    if_cases Fits (addr == 0)
      (λ zero_hint.
        option_split Fits (find_free_area_locked length ms.areas) (λ _. tt)
          (λ a e.
            let (m', bound, f) =
              find_free_from-free length 0 ms.areas a l.order l.ends (omega arith) e in
            free-Placed ms addr length fixed a (inl (ground arith)) bound m' l f))
      (λ _.
        if_cases Fits (has_conflict_locked ms.areas addr length) (λ _. by_force fixed)
          (λ e. free-Placed ms addr length fixed addr (inr refl) b m l (clear e)))
  where
    Fits : Option (Result (ℕ × MemorySet)) → Type 0
    Fits r = OnRun (λ (x : ℕ × MemorySet). Placed ms addr length fixed x.0 x.1) r

    by_force :
        (f : Bool)
        → OnRun
            (λ (x : ℕ × MemorySet). Placed ms addr length f x.0 x.1)
            (if f
              then elim (munmap_locked ms addr length) [
                | none ↦ none
                | some ms' ↦ some (ok (addr, ms'))
              ]
              else some (err eexist))
    by_force true =
        rw (munmap_locked-munmap_range ms addr length b l run)
          (munmap_range-Placed ms length addr n b m l run)
    by_force false = tt

    clear :
        has_conflict_locked ms.areas addr length ≡ false
        → any_overlap ms.areas (std_floor addr) (std_ceil (addr + length)) ≡ false
    clear e =
        let floor : va_from addr ≡ addr = omega arith in
        let ceil : va_from (addr + length) ≡ addr + length = omega arith in rw (floor, ceil) at e
