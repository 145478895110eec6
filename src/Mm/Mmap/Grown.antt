-- ===== src/Mm/Mmap/Grown.antt =====
-- `mremap_inplace` of os/src/mm/memory_set.rs lets an area of anonymous memory grow at its end.
use os.Base.{
  ℕ, ◌+◌, ◌-◌, ◌^◌, ◌%◌, ◌≤◌, ◌<◌, ◌≡◌, refl, ◌∙◌, sym, ap, true, false, not, Option, some, some_eq,
  List, [], ◌∷◌, ltb, if◌then◌else◌, arith, if_cases, option_split, leb, none, Bool-cases, inl, inr,
  ◌⊎◌, ℕ_discrete,
}
use mathlib.Core.Path.{subst}
use os.Mm.Address.{page_size, user_app_max_size, va_from, std_floor, std_ceil, range_contains}
use os.Mm.Table.{get, insert}
use mathlib.Core.Bool.{true≢false}
use os.Mm.Area.{
  MapType, identical, framed, file, borrowed_kernel, windowed, guard, MapArea, is_framed, resize,
}
use os.Mm.Space.{MemorySet, Result, ok, err, any_overlap, has_conflict_locked}
use os.Mm.Mmap.{whole_anonymous, mremap_vpns, mremap_inplace}
use os.Mm.Mmap.Placed.{in_pages}
use os.Mm.View.{Page, page_of, page_at, Laid, WellFormed}
use os.Mm.View.Cuts.{page_of-resize}
use os.Mm.View.Pieces.{insert-head}
use os.Mm.View.Search.{any_overlap-none, same_range}
use os.Mm.View.Inserted.{insert-Below}
use os.Mm.Protect.Split.{get-le, get-start, insert-replace}

Laid-any_overlap :
    (lo hi : ℕ) (es : List (ℕ × MapArea)) → Laid lo es → any_overlap es lo hi ≡ false → Laid hi es
unfolding any_overlap
Laid-any_overlap lo hi [] l f = tt
Laid-any_overlap lo hi (e ∷ es) (same, above, some_pages, l) f = (same, ground arith, some_pages, l)

-- The area under a key is made longer, into free space.
module _ (key : ℕ) (a a' : MapArea) (start : a'.range_start ≡ key)
    (longer : a.range_end ≤ a'.range_end) where
  grow-Laid :
      (lo : ℕ) (es : List (ℕ × MapArea))
      → Laid lo es
      → get es key ≡ some a
      → any_overlap es a.range_end a'.range_end ≡ false
      → Laid lo (insert es key a')
  unfolding get any_overlap
  grow-Laid lo [] l e f = absurd cc
  grow-Laid lo (x ∷ es) (same, above, some_pages, l) e f = elim (ℕ_discrete x.0 key) [
    | yes p ↦
        let here : x.1 ≡ a = some_eq (ground (arith, e)) in
        let clear : any_overlap es a.range_end a'.range_end ≡ false = ground (arith, f) in
        let l' : Laid a.range_end es = subst (λ (m : MapArea). Laid m.range_end es) here l in
        let ends : x.1.range_end ≡ a.range_end = ap (λ (m : MapArea). m.range_end) here in
        subst (λ k. Laid lo (insert (x ∷ es) k a')) p
          (subst (Laid lo) (sym (insert-replace x.0 x.1 es a')) (
            p ∙ sym start,
            omega (arith, p, same, start),
            omega (arith, p, same, start, ends, longer),
            Laid-any_overlap a.range_end a'.range_end es l' clear,
          ))
    | no p ↦
        let later : get es key ≡ some a = ground (arith, e) in
        let behind = get-le x.1.range_end key es a l later in
        subst (Laid lo) (sym (insert-head x.0 x.1 es key a' (omega arith)))
          (same, above, some_pages, grow-Laid x.1.range_end es l later (ground (arith, f)))
  ]

  page_at-grow :
      (lo : ℕ) (es : List (ℕ × MapArea)) (v : ℕ)
      → Laid lo es
      → get es key ≡ some a
      → page_at (insert es key a') v ≡ (
          if range_contains a'.range_start a'.range_end v
          then some (page_of a' v)
          else page_at es v)
  unfolding get page_at
  page_at-grow lo [] v l e = absurd cc
  page_at-grow lo (x ∷ es) v (same, above, some_pages, l) e = elim (ℕ_discrete x.0 key) [
    | yes p ↦
        let here : x.1 ≡ a = some_eq (ground (arith, e)) in
        let ends : x.1.range_end ≡ a.range_end = ap (λ (m : MapArea). m.range_end) here in
        ap (λ k. page_at (insert (x ∷ es) k a') v) (sym p)
        ∙ ap (λ r. page_at r v) (insert-replace x.0 x.1 es a')
        ∙ if_cases
            (λ (o : Option Page). o ≡ (
              if range_contains a'.range_start a'.range_end v
              then some (page_of a' v)
              else page_at (x ∷ es) v))
            (range_contains a'.range_start a'.range_end v) (λ i. rw i refl)
            (λ i.
              let out : range_contains x.1.range_start x.1.range_end v ≡ false =
                ground (arith, p, same, start, ends, longer, i) in
              rw (i, out) refl)
    | no p ↦
        let later : get es key ≡ some a = ground (arith, e) in
        let behind = get-le x.1.range_end key es a l later in
        let rest = page_at-grow x.1.range_end es v l later in
        ap (λ r. page_at r v) (insert-head x.0 x.1 es key a' (omega arith)) ∙ ground (arith, rest)
  ]

-- What `mremap_inplace` does when it succeeds: the framed area at the address has grown to the new size,
-- over pages that were in no area. Each page of the new range is one of that area, every page outside is
-- what it was, and the areas stay well formed.
pub record Grown (ms : MemorySet) (old_addr old_size new_size a : ℕ) (ms' : MemorySet)
    : Type 0 where
  pub address : a ≡ old_addr
  pub area : MapArea
  pub found : get ms.areas (std_floor old_addr) ≡ some area
  pub anonymous : area.map_type ≡ framed
  pub old_end : area.range_end ≡ std_ceil (old_addr + old_size)
  pub free :
      (v : ℕ)
      → (in_pages (old_addr + old_size) (new_size - old_size) v ≡ false)
        ⊎ (page_at ms.areas v ≡ none)
  pub valid : WellFormed ms'
  pub pages :
      (v : ℕ)
      → page_at ms'.areas v
        ≡ (if in_pages old_addr new_size v then some (page_of area v) else page_at ms.areas v)

abbrev pub GrownIfOk : MemorySet → ℕ → ℕ → ℕ → Option (Result (ℕ × MemorySet)) → Type 0
GrownIfOk ms old_addr old_size new_size none = ⊥
GrownIfOk ms old_addr old_size new_size (some (ok x)) = Grown ms old_addr old_size new_size x.0 x.1
GrownIfOk ms old_addr old_size new_size (some (err e)) = Unit

is_framed-framed : (t : MapType) → is_framed t ≡ true → t ≡ framed
is_framed-framed framed e = refl
is_framed-framed identical e = absurd (true≢false (sym e))
is_framed-framed file e = absurd (true≢false (sym e))
is_framed-framed borrowed_kernel e = absurd (true≢false (sym e))
is_framed-framed windowed e = absurd (true≢false (sym e))
is_framed-framed guard e = absurd (true≢false (sym e))

module _ (ms : MemorySet) (old_addr old_size new_size : ℕ) (w : WellFormed ms)
    (aligned : old_addr % page_size ≡ 0) (aligned_size : old_size % page_size ≡ 0)
    (growth : old_size < new_size) (b : old_addr + new_size < user_app_max_size) where
  abbrev Fits : ℕ × MemorySet → Type 0
  Fits x = Grown ms old_addr old_size new_size x.0 x.1

  floor : va_from old_addr ≡ old_addr
  floor = omega arith

  old_ceil : va_from (old_addr + old_size) ≡ old_addr + old_size
  old_ceil = omega arith

  new_ceil : va_from (old_addr + new_size) ≡ old_addr + new_size
  new_ceil = omega arith

  area-Grown :
      (a : MapArea)
      → get ms.areas (std_floor old_addr) ≡ some a
      → whole_anonymous a (std_floor old_addr) (std_ceil (old_addr + old_size)) ≡ true
      → has_conflict_locked ms.areas (old_addr + old_size) (new_size - old_size) ≡ false
      → Fits (
        old_addr,
        record ms {
          areas =
              insert ms.areas
                (std_floor old_addr)
                (resize a (std_floor old_addr) (std_ceil (old_addr + new_size)));
        },
      )
  unfolding resize
  area-Grown a g whole free =
      let key : ℕ = std_floor old_addr in
      let a' : MapArea = resize a key (std_ceil (old_addr + new_size)) in
      let start = get-start 0 key ms.areas a w.order g in
      let end : a.range_end ≡ std_ceil (old_addr + old_size) = ground (arith, whole) in
      let sum : old_addr + old_size + (new_size - old_size) ≡ old_addr + new_size = omega arith in
      let low : std_floor (old_addr + old_size) ≡ a.range_end = omega (arith, end) in
      let clear : any_overlap ms.areas a.range_end (std_ceil (old_addr + new_size)) ≡ false =
        rw (low, sum) at
          (sym (same_range ms.areas (old_addr + old_size) (new_size - old_size) (omega arith))
            ∙ free) in
      let longer : a.range_end ≤ std_ceil (old_addr + new_size) = omega (arith, end) in
      record {
        address = refl;
        area = a;
        found = g;
        anonymous = is_framed-framed a.map_type (ground (arith, whole));
        old_end = end;
        free = λ v. elim (Bool-cases (in_pages (old_addr + old_size) (new_size - old_size) v)) [
          | inl i ↦ inr (
              any_overlap-none ms.areas a.range_end (std_ceil (old_addr + new_size)) v clear
                (ground (arith, i, end)) (ground (arith, i)))
          | inr i ↦ inl i
        ];
        valid = record {
          order = grow-Laid key a a' refl longer 0 ms.areas w.order g clear;
          ends = insert-Below ms.areas key a' w.ends (omega arith);
        };
        pages = λ v.
            page_at-grow key a a' refl longer 0 ms.areas v w.order g
            ∙ if_cases
                (λ (o : Option Page).
                  (if range_contains key (std_ceil (old_addr + new_size)) v
                    then some (page_of a' v)
                    else page_at ms.areas v)
                  ≡ o)
                (in_pages old_addr new_size v)
                (λ i. rw i (
                  ap some (
                    page_of-resize a a key (std_ceil (old_addr + new_size)) v
                      (a.data_frames, refl, refl) (omega (arith, start)) (ground (arith, i)))))
                (λ i. rw i refl);
      }

  abbrev Runs : Option (Result (ℕ × MemorySet)) → Type 0
  Runs o = GrownIfOk ms old_addr old_size new_size o

  mremap_vpns-Fits : Runs (
      mremap_vpns ms old_addr old_size new_size
        (std_floor old_addr)
        (std_ceil (old_addr + old_size))
        (std_ceil (old_addr + new_size)))
  unfolding mremap_vpns
  mremap_vpns-Fits =
      let in_order : leb (std_floor old_addr) (std_ceil (old_addr + new_size)) ≡ true =
        ground arith in
      option_split Runs (get ms.areas (std_floor old_addr)) (λ _. tt)
        (λ a g.
          if_cases Runs
            (not (whole_anonymous a (std_floor old_addr) (std_ceil (old_addr + old_size))))
            (λ _. tt)
            (λ whole.
              if_cases Runs
                (has_conflict_locked ms.areas (old_addr + old_size) (new_size - old_size)) (λ _. tt)
                (λ free. rw in_order (area-Grown a g (ground (arith, whole)) free))))

  -- `mremap_inplace` at a page-aligned address, to a larger size than the page-aligned old one, with
  -- the new end in the user half, does not panic. When it succeeds, the framed area that began at the
  -- address and ended with the old size has grown to the new one over pages that were in no area. Each
  -- page of the new range is one of that area, every page outside is what it was, and the areas stay
  -- well formed.
  pub mremap_inplace-Grown :
      GrownIfOk ms old_addr old_size new_size (mremap_inplace ms old_addr old_size new_size)
  unfolding mremap_inplace
  mremap_inplace-Grown =
      if_cases Runs (not (ltb (old_addr + old_size) (2 ^ 64))) (λ _. tt)
        (λ _.
          if_cases Runs (not (ltb (old_addr + new_size) (2 ^ 64))) (λ _. tt)
            (λ _. rw (floor, old_ceil, new_ceil) mremap_vpns-Fits))
