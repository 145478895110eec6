-- ===== src/Mm/View/Unmapped.antt =====
-- What `munmap_locked` of os/src/mm/memory_set.rs does to the order of the areas, and to each page.
use os.Base.{
  ℕ, ◌≤◌, ◌<◌, ◌≡◌, inl, inr, refl, ◌∙◌, sym, ap, Option, none, some, List, [], ◌∷◌, ◌++◌,
  if◌then◌else◌, arith,
}
use mathlib.Core.Path.{subst}
use os.Frames.{num_pages}
use os.Mm.Address.{range_contains}
use os.Mm.Area.{MapArea, Pages, unmap_pages, resize, clone_meta_with_new_range}
use os.Mm.Table.{split_low}
use os.Mm.Space.{MemorySet}
use os.Mm.Munmap.{
  munmap_vpns, Turn, delete_all, left_of, right_of, split_middle, delete_left_part,
  delete_right_part,
}
use os.Mm.View.{page_of, page_at, Laid, Below}
use os.Mm.View.Cuts.{SameBut-split_low, unmap_pages-SameBut, page_of-resize, page_of-right}
use os.Mm.View.Pieces.{pieces_of, pieces, munmap_area_cases, commit-sweep}

pub Laid-weaken : (lo lo' : ℕ) (es : List (ℕ × MapArea)) → Laid lo es → lo' ≤ lo → Laid lo' es
Laid-weaken lo lo' [] l h = tt
Laid-weaken lo lo' (e ∷ es) (same, above, some_pages, l) h = (same, omega arith, some_pages, l)

pub pieces-Laid :
    (s t lo : ℕ) (es : List (ℕ × MapArea)) (pages : Pages)
    → s ≤ t
    → Laid lo es
    → Laid lo (pieces s t es pages)
unfolding pieces delete_all split_middle delete_left_part delete_right_part resize
    clone_meta_with_new_range
pieces-Laid s t lo [] pages h l = tt
pieces-Laid s t lo (e ∷ es) pages h (same, above, some_pages, l) =
    let later : (p : Pages) → Laid e.1.range_end (pieces s t es p) =
      λ p. pieces-Laid s t e.1.range_end es p h l in
    munmap_area_cases (λ (turn : Turn). Laid lo (pieces_of e.0 turn ++ pieces s t es turn.pages)) s
      t e.0 e.1 pages (λ _. (same, above, some_pages, later pages))
      (λ _ _.
        Laid-weaken e.1.range_end lo (pieces s t es (delete_all e.0 e.1 pages).pages)
          (later (delete_all e.0 e.1 pages).pages) (omega arith))
      (λ x y. (same, above, x, (refl, h, y, later (split_middle s t e.1 pages).pages)))
      (λ x y z. (refl, omega arith, z, later (delete_left_part t e.0 e.1 pages).pages))
      (λ x y z. (
        same,
        above,
        x,
        Laid-weaken e.1.range_end s (pieces s t es (delete_right_part s e.1 pages).pages)
            (later (delete_right_part s e.1 pages).pages) (omega arith),
      ))

-- What is found at `v` when the range from `s` up to `t` is cut out of the one from `a` up to `b`.
module _ {A : Type 0} (a b s t v : ℕ) (q rest rest' : Option A)
    (e : rest' ≡ (if range_contains s t v then none else rest)) where
  cut_middle :
      (q1 q2 : Option A)
      → a < s
      → s ≤ t
      → t < b
      → (a ≤ v → v < s → q1 ≡ q)
      → (t ≤ v → q2 ≡ q)
      → (if range_contains a s v then q1 else if range_contains t b v then q2 else rest')
        ≡ (if range_contains s t v then none else if range_contains a b v then q else rest)
  cut_middle q1 q2 h1 h2 h3 left right = grind arith

  cut_left :
      (q2 : Option A)
      → s ≤ a
      → a < t
      → t < b
      → (t ≤ v → q2 ≡ q)
      → (if range_contains t b v then q2 else rest')
        ≡ (if range_contains s t v then none else if range_contains a b v then q else rest)
  cut_left q2 h1 h2 h3 right = grind arith

  cut_right :
      (q1 : Option A)
      → a < s
      → s < b
      → b ≤ t
      → (a ≤ v → v < s → q1 ≡ q)
      → (if range_contains a s v then q1 else rest')
        ≡ (if range_contains s t v then none else if range_contains a b v then q else rest)
  cut_right q1 h1 h2 h3 left = grind arith

pieces-Below :
    (s t lo : ℕ) (es : List (ℕ × MapArea)) (pages : Pages)
    → s ≤ t
    → Laid lo es
    → Below es
    → Below (pieces s t es pages)
unfolding pieces delete_all split_middle delete_left_part delete_right_part resize
    clone_meta_with_new_range
pieces-Below s t lo [] pages h l b = tt
pieces-Below s t lo (e ∷ es) pages h (_, _, _, l) (b, bs) =
    let later : (p : Pages) → Below (pieces s t es p) =
      λ p. pieces-Below s t e.1.range_end es p h l bs in
    munmap_area_cases (λ (turn : Turn). Below (pieces_of e.0 turn ++ pieces s t es turn.pages)) s t
      e.0 e.1 pages (λ _. (b, later pages)) (λ _ _. later (delete_all e.0 e.1 pages).pages)
      (λ x y. (omega arith, (b, later (split_middle s t e.1 pages).pages)))
      (λ _ _ _. (b, later (delete_left_part t e.0 e.1 pages).pages))
      (λ x y z. (omega arith, later (delete_right_part s e.1 pages).pages))

page_at-pieces :
    (s t lo : ℕ) (es : List (ℕ × MapArea)) (pages : Pages) (v : ℕ)
    → s ≤ t
    → Laid lo es
    → page_at (pieces s t es pages) v ≡ (if range_contains s t v then none else page_at es v)
unfolding pieces page_at delete_all split_middle delete_left_part delete_right_part resize
    clone_meta_with_new_range
page_at-pieces s t lo [] pages v h l = ground arith
page_at-pieces s t lo (e ∷ es) pages v h (same, above, some_pages, l) =
    let later : (p : Pages)
        → page_at (pieces s t es p) v ≡ (if range_contains s t v then none else page_at es v) =
      λ p. page_at-pieces s t e.1.range_end es p v h l in
    munmap_area_cases
      (λ (turn : Turn).
        page_at (pieces_of e.0 turn ++ pieces s t es turn.pages) v
        ≡ (if range_contains s t v then none else page_at (e ∷ es) v))
      s t e.0 e.1 pages (λ x. ground (arith, later pages))
      (λ x y. ground (arith, later (delete_all e.0 e.1 pages).pages))
      (λ x y.
        let r = unmap_pages 1 s t e.1 pages in
        cut_middle e.1.range_start e.1.range_end s t v (some (page_of e.1 v)) (page_at es v)
          (page_at (pieces s t es r.1) v) (later r.1) (some (page_of (left_of s t e.1 pages) v))
          (some (page_of (right_of s t e.1 pages) v)) x h y
          (λ p q. ap some (
            page_of-resize e.1 (record r.0 { data_frames = split_low r.0.data_frames t })
              e.1.range_start s v
              (SameBut-split_low e.1 r.0 t v (unmap_pages-SameBut 1 s t e.1 pages v (inl q))
                (omega arith))
              (omega arith) p))
          (λ p. ap some (
            page_of-right e.1 r.0 s t e.1.range_end v
              (unmap_pages-SameBut 1 s t e.1 pages v (inr p)) (omega arith) p)))
      (λ x y z.
        let step : ℕ = num_pages e.1.area_page_size in
        let r = unmap_pages step e.1.range_start t e.1 pages in
        cut_left e.1.range_start e.1.range_end s t v (some (page_of e.1 v)) (page_at es v)
          (page_at (pieces s t es r.1) v) (later r.1)
          (some (page_of (delete_left_part t e.0 e.1 pages).area v)) x y z
          (λ p. ap some (
            page_of-resize e.1 r.0 t e.1.range_end v
              (unmap_pages-SameBut step e.1.range_start t e.1 pages v (inr p)) (omega arith) p)))
      (λ x y z.
        let step : ℕ = num_pages e.1.area_page_size in
        let r = unmap_pages step s e.1.range_end e.1 pages in
        cut_right e.1.range_start e.1.range_end s t v (some (page_of e.1 v)) (page_at es v)
          (page_at (pieces s t es r.1) v) (later r.1)
          (some (page_of (delete_right_part s e.1 pages).area v)) x y z
          (λ p q. ap some (
            page_of-resize e.1 r.0 e.1.range_start s v
              (unmap_pages-SameBut step s e.1.range_end e.1 pages v (inl q)) (omega arith) p)))

-- After `munmap_locked`, a page of the range is in no area, and every other page has what it had: its
-- kind, its permissions, its frame, and its page of the file.
pub munmap_vpns-page_at :
    (ms : MemorySet) (s t v : ℕ)
    → s ≤ t
    → Laid 0 ms.areas
    → page_at (munmap_vpns ms s t).areas v
      ≡ (if range_contains s t v then none else page_at ms.areas v)
unfolding munmap_vpns
munmap_vpns-page_at ms s t v h l =
    ap (λ es. page_at es v) (commit-sweep s t 0 ms.areas ms.pages h l)
    ∙ page_at-pieces s t 0 ms.areas ms.pages v h l

-- `munmap_locked` leaves the areas in order, none of them empty and no two with a page in common.
pub munmap_vpns-Laid :
    (ms : MemorySet) (s t : ℕ) → s ≤ t → Laid 0 ms.areas → Laid 0 (munmap_vpns ms s t).areas
unfolding munmap_vpns
munmap_vpns-Laid ms s t h l =
    subst (Laid 0) (sym (commit-sweep s t 0 ms.areas ms.pages h l))
      (pieces-Laid s t 0 ms.areas ms.pages h l)

pub munmap_vpns-Below :
    (ms : MemorySet) (s t : ℕ)
    → s ≤ t
    → Laid 0 ms.areas
    → Below ms.areas
    → Below (munmap_vpns ms s t).areas
unfolding munmap_vpns
munmap_vpns-Below ms s t h l b =
    subst Below (sym (commit-sweep s t 0 ms.areas ms.pages h l))
      (pieces-Below s t 0 ms.areas ms.pages h l b)
