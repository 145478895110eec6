-- ===== src/Mm/View/Swept.antt =====
-- What `munmap_locked` of os/src/mm/memory_set.rs does to the page table, over all areas.
use os.Base.{
  ℕ, ◌-◌, ◌≤◌, ◌<◌, ◌≡◌, refl, ◌∙◌, sym, ap, Bool, true, false, not, ◌&&◌, ◌||◌, Option, none, some,
  List, [], ◌∷◌, if◌then◌else◌, arith, Bool-cases, inl, inr,
}
use mathlib.Core.Path.{subst}
use os.Frames.{page_4k, num_pages}
use os.Mm.Address.{range_contains}
use os.Mm.Area.{MapArea, Pages, Pte, has_entry, empty_pte, unmap_pages}
use os.Mm.Munmap.{
  Turn, delete_all, split_middle, delete_left_part, delete_right_part, munmap_area, sweep,
}
use os.Mm.View.{Page, page_at, Laid}
use os.Mm.View.Pieces.{munmap_area_cases}
use os.Mm.View.Entries.{holds_frames, is_user, is_some, backed, Clears, unmap_loop-Clears}

-- The areas are of a user, with pages of the small size, and each page with a frame has a valid entry.
abbrev pub Resident : (ℕ → Option Pte) → List (ℕ × MapArea) → Type 0
Resident table [] = Unit
Resident table (e ∷ es) =
    (is_user e.1.map_type ≡ true)
    × (e.1.area_page_size ≡ page_4k)
    × ((v : ℕ)
        → not (range_contains e.1.range_start e.1.range_end v && backed e.1 v)
            || has_entry (table v)
          ≡ true)
    × Resident table es

-- The page is in an area that has a frame for it.
abbrev pub page_backed : Option Page → Bool
page_backed none = false
page_backed (some p) = holds_frames p.map_type && is_some p.frame

unmap_pages-Clears :
    (step lo hi : ℕ) (a : MapArea) (pages : Pages) (gone : ℕ → Bool)
    → step ≡ 1
    → is_user a.map_type ≡ true
    → ((v : ℕ) → (range_contains lo hi v && backed a v) ≡ gone v)
    → ((v : ℕ) → not (gone v) || has_entry (pages.page_table v) ≡ true)
    → Clears gone pages (unmap_pages step lo hi a pages).1
unfolding unmap_pages
unmap_pages-Clears step lo hi a pages gone one u same ready =
    let (runs, table) =
      unmap_loop-Clears (hi - lo) lo hi a pages u (omega arith)
        (λ v. ground (arith, same v, ready v)) in
    subst (λ k. Clears gone pages (unmap_pages k lo hi a pages).1) (sym one)
      (runs, λ v. table v ∙ ap (λ b. if b then some empty_pte else pages.page_table v) (same v))

munmap_area-Clears :
    (s t key : ℕ) (a : MapArea) (pages : Pages)
    → is_user a.map_type ≡ true
    → a.area_page_size ≡ page_4k
    → ((v : ℕ)
        → not (range_contains a.range_start a.range_end v && backed a v)
            || has_entry (pages.page_table v)
          ≡ true)
    → Clears
        (λ v. range_contains s t v && (range_contains a.range_start a.range_end v && backed a v))
        pages
        (munmap_area s t key a pages).pages
unfolding delete_all split_middle delete_left_part delete_right_part num_pages
munmap_area-Clears s t key a pages u small ready =
    let gone : ℕ → Bool =
      λ v. range_contains s t v && (range_contains a.range_start a.range_end v && backed a v) in
    let one : num_pages a.area_page_size ≡ 1 = ap num_pages small in
    let can : (v : ℕ) → not (gone v) || has_entry (pages.page_table v) ≡ true =
      λ v. ground (arith, ready v) in
    munmap_area_cases (λ (turn : Turn). Clears gone pages turn.pages) s t key a pages
      (λ x. (refl, λ v. ground arith))
      (λ x y.
        unmap_pages-Clears (num_pages a.area_page_size) a.range_start a.range_end a pages gone one u
          (λ v. ground arith) can)
      (λ x y. unmap_pages-Clears 1 s t a pages gone refl u (λ v. ground arith) can)
      (λ x y z.
        unmap_pages-Clears (num_pages a.area_page_size) a.range_start t a pages gone one u
          (λ v. ground arith) can)
      (λ x y z.
        unmap_pages-Clears (num_pages a.area_page_size) s a.range_end a pages gone one u
          (λ v. ground arith) can)

pub page_at-before :
    (lo v : ℕ) (es : List (ℕ × MapArea)) → Laid lo es → v < lo → page_at es v ≡ none
unfolding page_at
page_at-before lo v [] l h = refl
page_at-before lo v (e ∷ es) (same, above, some_pages, l) h =
    ground (arith, page_at-before e.1.range_end v es l (omega arith))

-- Entries below all areas do not matter.
Resident-same :
    (lo : ℕ) (es : List (ℕ × MapArea)) (table table' : ℕ → Option Pte)
    → Laid lo es
    → ((v : ℕ) → lo ≤ v → table' v ≡ table v)
    → Resident table es
    → Resident table' es
Resident-same lo [] table table' l same r = tt
Resident-same lo (e ∷ es) table table' (k, above, some_pages, l) same (u, small, ready, r) = (
  u,
  small,
  λ v. elim (Bool-cases (range_contains e.1.range_start e.1.range_end v)) [
    | inl i ↦ ground (arith, ready v, same v (ground (arith, i)))
    | inr i ↦ ground (arith, i)
  ],
  Resident-same e.1.range_end es table table' l (λ v h. same v (omega arith)) r,
)

pub sweep-Clears :
    (s t lo : ℕ) (es : List (ℕ × MapArea)) (pages : Pages)
    → Laid lo es
    → Resident pages.page_table es
    → Clears
        (λ v. range_contains s t v && page_backed (page_at es v))
        pages
        (sweep s t es pages).pages
unfolding sweep page_at
sweep-Clears s t lo [] pages l r = (refl, λ v. ground arith)
sweep-Clears s t lo (e ∷ es) pages (k, above, some_pages, l) (u, small, ready, r) =
    let turn : Turn = munmap_area s t e.0 e.1 pages in
    let (runs, table) = munmap_area-Clears s t e.0 e.1 pages u small ready in
    let r' =
      Resident-same e.1.range_end es pages.page_table turn.pages.page_table l
        (λ v h. table v ∙ ground arith) r in
    let (runs', table') = sweep-Clears s t e.1.range_end es turn.pages l r' in
    (
      runs' ∙ runs,
      λ v. elim (Bool-cases (range_contains e.1.range_start e.1.range_end v)) [
        | inl i ↦
            let behind : page_at es v ≡ none =
              page_at-before e.1.range_end v es l (ground (arith, i)) in
            table' v ∙ rw (behind, i) (ground (arith, table v, i))
        | inr i ↦ table' v ∙ rw i (ground (arith, table v, i))
      ],
    )
