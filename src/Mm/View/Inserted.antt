-- ===== src/Mm/View/Inserted.antt =====
-- A new area in free space: the order of the areas of os/src/mm/memory_set.rs, and their pages.
use os.Base.{
  ℕ, ◌*◌, ◌≤◌, ◌<◌, ◌≡◌, refl, false, some, List, [], ◌∷◌, ltb, ◌==◌, if◌then◌else◌, arith,
  if_cases,
}
use os.Mm.Address.{page_size, user_app_max_size, range_contains}
use os.Mm.Table.{insert}
use os.Mm.Area.{MapArea}
use os.Mm.Space.{any_overlap}
use os.Mm.View.{page_of, page_at, Laid, Below}

pub insert-Laid :
    (lo : ℕ) (es : List (ℕ × MapArea)) (a : MapArea)
    → Laid lo es
    → lo ≤ a.range_start
    → a.range_start < a.range_end
    → any_overlap es a.range_start a.range_end ≡ false
    → Laid lo (insert es a.range_start a)
unfolding insert any_overlap
insert-Laid lo [] a l h n f = (refl, h, n, tt)
insert-Laid lo (e ∷ es) a (same, above, some_pages, l) h n f =
    if_cases (Laid lo) (ltb a.range_start e.0)
      (λ g. (refl, h, n, (same, ground arith, some_pages, l)))
      (λ g.
        if_cases (Laid lo) (e.0 == a.range_start) (λ k. absurd (ground arith))
          (λ k. (
            same,
            above,
            some_pages,
            insert-Laid e.1.range_end es a l (ground arith) n (ground (arith, f)),
          )))

pub page_at-insert :
    (lo : ℕ) (es : List (ℕ × MapArea)) (a : MapArea) (v : ℕ)
    → Laid lo es
    → a.range_start < a.range_end
    → any_overlap es a.range_start a.range_end ≡ false
    → page_at (insert es a.range_start a) v
      ≡ (if range_contains a.range_start a.range_end v then some (page_of a v) else page_at es v)
unfolding insert any_overlap page_at
page_at-insert lo [] a v l n f = refl
page_at-insert lo (e ∷ es) a v (same, above, some_pages, l) n f =
    let clear : any_overlap es a.range_start a.range_end ≡ false = ground (arith, f) in
    let later = page_at-insert e.1.range_end es a v l n clear in
    if_cases
      (λ (r : List (ℕ × MapArea)). page_at r v ≡ (
        if range_contains a.range_start a.range_end v
        then some (page_of a v)
        else page_at (e ∷ es) v))
      (ltb a.range_start e.0) (λ g. refl)
      (λ g.
        if_cases
          (λ (r : List (ℕ × MapArea)). page_at r v ≡ (
            if range_contains a.range_start a.range_end v
            then some (page_of a v)
            else page_at (e ∷ es) v))
          (e.0 == a.range_start) (λ k. absurd (ground arith)) (λ k. ground (arith, f, later)))

pub insert-Below :
    (es : List (ℕ × MapArea)) (k : ℕ) (a : MapArea)
    → Below es
    → a.range_end * page_size ≤ user_app_max_size
    → Below (insert es k a)
unfolding insert
insert-Below [] k a b h = (h, tt)
insert-Below (e ∷ es) k a (b, bs) h =
    if_cases Below (ltb k e.0) (λ _. (h, (b, bs)))
      (λ _. if_cases Below (e.0 == k) (λ _. (h, bs)) (λ _. (b, insert-Below es k a bs h)))
