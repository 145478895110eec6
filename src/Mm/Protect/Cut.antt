-- ===== src/Mm/Protect/Cut.antt =====
-- The areas after the one that a page cuts is split: `split_area_at` of os/src/mm/memory_set.rs.
use os.Base.{
  ℕ, ◌≤◌, ◌<◌, ◌≡◌, ◌⊎◌, inl, inr, refl, ap, true, false, Option, some, List, [], ◌∷◌,
  if◌then◌else◌, arith, if_cases,
}
use os.Mm.Address.{range_contains}
use os.Mm.Table.{split_low}
use os.Mm.Area.{MapArea, resize, clone_meta_with_new_range}
use os.Mm.Protect.{left_part, right_part}
use os.Mm.View.{page_of, page_at, Laid, Below}
use os.Mm.View.Cuts.{SameBut-split_low, page_of-resize, page_of-clone}
use os.Mm.Protect.Split.{straddles, cut, Only, Clear, Laid-Clear}

-- A cut changes no page, and keeps the areas in order.
pub cut-Laid : (lo k : ℕ) (es : List (ℕ × MapArea)) → Laid lo es → Laid lo (cut es k)
unfolding cut resize clone_meta_with_new_range
cut-Laid lo k [] l = tt
cut-Laid lo k (e ∷ es) (same, above, some_pages, l) =
    if_cases (Laid lo) (straddles e.1 k)
      (λ s. (same, above, ground arith, (refl, omega arith, ground arith, l)))
      (λ _. (same, above, some_pages, cut-Laid e.1.range_end k es l))

pub cut-Below : (lo k : ℕ) (es : List (ℕ × MapArea)) → Laid lo es → Below es → Below (cut es k)
unfolding cut resize clone_meta_with_new_range
cut-Below lo k [] l b = tt
cut-Below lo k (e ∷ es) (same, above, some_pages, l) (b, bs) =
    if_cases Below (straddles e.1 k)
      (λ s. let inside : k < e.1.range_end = ground arith in (omega arith, (b, bs)))
      (λ _. (b, cut-Below e.1.range_end k es l bs))

cut_option :
    {A : Type 0} (start end k v : ℕ) (q q1 q2 rest : Option A)
    → start < k
    → k < end
    → (start ≤ v → v < k → q1 ≡ q)
    → (k ≤ v → q2 ≡ q)
    → (if range_contains start k v then q1 else if range_contains k end v then q2 else rest)
      ≡ (if range_contains start end v then q else rest)
cut_option start end k v q q1 q2 rest h1 h2 left right = grind arith

pub page_at-cut : (k v : ℕ) (es : List (ℕ × MapArea)) → page_at (cut es k) v ≡ page_at es v
unfolding cut page_at clone_meta_with_new_range resize
page_at-cut k v [] = refl
page_at-cut k v (e ∷ es) =
    if_cases (λ r. page_at r v ≡ page_at (e ∷ es) v) (straddles e.1 k)
      (λ s.
        let lo : e.1.range_start < k = ground arith in
        let hi : k < e.1.range_end = ground arith in
        cut_option e.1.range_start e.1.range_end k v (some (page_of e.1 v))
          (some (page_of (left_part e.1 k) v)) (some (page_of (right_part e.1 k) v)) (page_at es v)
          lo hi
          (λ p q. ap some (
            page_of-resize e.1 (record e.1 { data_frames = split_low e.1.data_frames k })
              e.1.range_start k v (SameBut-split_low e.1 e.1 k v (e.1.data_frames, refl, refl) q)
              (omega arith) p))
          (λ p. ap some (
            page_of-clone e.1 e.1 k e.1.range_end v (e.1.data_frames, refl, refl) (omega arith) p)))
      (λ _.
        ap (λ r. if range_contains e.1.range_start e.1.range_end v then some (page_of e.1 v) else r)
          (page_at-cut k v es))

-- After a cut no area is cut by the page; an area that is cut by no other page stays so.
pub cut-Clear : (lo k : ℕ) (es : List (ℕ × MapArea)) → Laid lo es → Clear k (cut es k)
unfolding cut resize clone_meta_with_new_range
cut-Clear lo k [] l = tt
cut-Clear lo k (e ∷ es) (same, above, some_pages, l) =
    if_cases (Clear k) (straddles e.1 k)
      (λ s. (ground arith, (ground arith, Laid-Clear e.1.range_end k es l (ground arith))))
      (λ s. (s, cut-Clear e.1.range_end k es l))

pub cut-Clear_other : (j k : ℕ) (es : List (ℕ × MapArea)) → Clear j es → Clear j (cut es k)
unfolding cut resize clone_meta_with_new_range
cut-Clear_other j k [] c = tt
cut-Clear_other j k (e ∷ es) (c, cs) =
    if_cases (Clear j) (straddles e.1 k) (λ s. (ground arith, (ground arith, cs)))
      (λ s. (c, cut-Clear_other j k es cs))

pub cut-Only :
    (key j k : ℕ) (es : List (ℕ × MapArea)) → j ≤ k → Only key j es → Only key j (cut es k)
unfolding cut resize clone_meta_with_new_range
cut-Only key j k [] h o = tt
cut-Only key j k (e ∷ es) h (o, os) =
    if_cases (Only key j) (straddles e.1 k) (λ s. (left o s, (inl (ground arith), os)))
      (λ s. (o, cut-Only key j k es h os))
  where
    left :
        (straddles e.1 j ≡ false) ⊎ (e.0 ≡ key)
        → straddles e.1 k ≡ true
        → (straddles (left_part e.1 k) j ≡ false) ⊎ (e.0 ≡ key)
    left (inl f) s = inl (ground arith)
    left (inr f) s = inr f
