-- ===== src/Mm/Protect/Entries.antt =====
-- What `mprotect` of os/src/mm/memory_set.rs does to the page table.
use os.Base.{
  ℕ, zero, suc, ◌+◌, ◌-◌, ◌≤◌, ◌≡◌, refl, ◌∙◌, ap, Bool, true, false, ◌&&◌, Option, none, some,
  List, [], ◌∷◌, ltb, leb, ◌==◌, if◌then◌else◌, arith, if_cases, Bool-cases, inl, inr, ℕ_discrete,
}
use os.Frames.{PageSize, page_4k, page_2m, page_1g, num_pages}
use os.Mm.Address.{range_contains}
use os.Mm.Area.{MapPermission, MapArea, Pte, initial_pte_permission}
use os.Mm.Protect.{set_flags_loop, change_ptes}
use os.Mm.Protect.Split.{Clear}
use os.Mm.View.{Page, page_at, Laid}
use os.Mm.View.Swept.{page_at-before}

-- The flags of a valid entry.
abbrev pub with_flags : MapPermission → Option Pte → Option Pte
with_flags flags none = none
with_flags flags (some pte) = some (if pte.valid then record pte { flags = flags } else pte)

-- What an entry may say of a page: without the right to write while the page is to be copied first.
abbrev pub entry_permission : Bool → MapPermission → MapPermission
entry_permission cow perm = if cow && perm.w then record perm { w = false } else perm

abbrev pub own_flags : Option Page → Option Pte → Option Pte
own_flags none entry = entry
own_flags (some p) entry = with_flags (entry_permission p.page_cache_cow p.map_perm) entry

abbrev pub is_small : PageSize → Bool
is_small page_4k = true
is_small _ = false

abbrev pub small_page : Option Page → Bool
small_page none = true
small_page (some p) = is_small p.size

set_flags_loop_lem :
    (fuel vpn bound : ℕ) (flags : MapPermission) (table : ℕ → Option Pte) (v : ℕ)
    → bound - vpn ≤ fuel
    → set_flags_loop fuel 1 vpn bound flags table v
      ≡ (if range_contains vpn bound v then with_flags flags (table v) else table v)
unfolding set_flags_loop
set_flags_loop_lem zero vpn bound flags table v enough = ground arith
set_flags_loop_lem (suc fuel) vpn bound flags table v enough = elim (Bool-cases (ltb vpn bound)) [
  | inr e ↦ rw (e, set_flags_loop) (ground arith)
  | inl e ↦
      let table' : ℕ → Option Pte =
        λ i. if i == vpn then with_flags flags (table vpn) else table i in
      let rest = set_flags_loop_lem fuel (vpn + 1) bound flags table' v (omega arith) in
      rw (e, set_flags_loop)
        (rest ∙ elim (ℕ_discrete v vpn) [ yes p ↦ ground (arith, p) | no ne ↦ ground (arith, ne) ])
]

small_step : (size : PageSize) → is_small size ≡ true → num_pages size ≡ 1
unfolding num_pages
small_step page_4k e = refl
small_step page_2m e = absurd cc
small_step page_1g e = absurd cc

same_branches :
    (b : Bool) (x y z : Option Pte)
    → x ≡ (if b then y else z)
    → (if b then x else x) ≡ (if b then y else z)
same_branches true x y z e = e
same_branches false x y z e = e

pub change_ptes_lem :
    (lo s t : ℕ) (es : List (ℕ × MapArea)) (table : ℕ → Option Pte) (v : ℕ)
    → Laid lo es
    → Clear s es
    → Clear t es
    → ((i : ℕ) → small_page (page_at es i) ≡ true)
    → change_ptes s t es table v
      ≡ (if range_contains s t v then own_flags (page_at es v) (table v) else table v)
unfolding change_ptes page_at initial_pte_permission
change_ptes_lem lo s t [] table v l c d small = ground arith
change_ptes_lem lo s t (e ∷ es) table v (same, above, some_pages, l) (c, cs) (d, ds) small =
    let first : range_contains e.1.range_start e.1.range_end e.1.range_start ≡ true =
      ground arith in
    let size : is_small e.1.area_page_size ≡ true = rw first at (small e.1.range_start) in
    let inside : Bool =
      (leb s e.0 && ltb e.0 t) && (leb s e.1.range_start && leb e.1.range_end t) in
    let table' : ℕ → Option Pte =
      if inside
      then set_flags_loop (e.1.range_end - e.1.range_start) (num_pages e.1.area_page_size)
          e.1.range_start e.1.range_end (initial_pte_permission e.1) table
      else table in
    let behind : (i : ℕ) → small_page (page_at es i) ≡ true = λ i.
      elim (Bool-cases (range_contains e.1.range_start e.1.range_end i)) [
        | inl f ↦ rw (page_at-before e.1.range_end i es l (ground (arith, f))) refl
        | inr f ↦ rw f at (small i)
      ] in
    let here : table' v ≡ (
        if inside && range_contains e.1.range_start e.1.range_end v
        then with_flags (initial_pte_permission e.1) (table v)
        else table v) =
      if_cases
        (λ (T : ℕ → Option Pte). T v ≡ (
          if inside && range_contains e.1.range_start e.1.range_end v
          then with_flags (initial_pte_permission e.1) (table v)
          else table v))
        inside
        (λ f.
          rw (small_step e.1.area_page_size size, f)
            (set_flags_loop_lem (e.1.range_end - e.1.range_start) e.1.range_start e.1.range_end
              (initial_pte_permission e.1) table v (omega arith)))
        (λ f. rw f refl) in
    change_ptes_lem e.1.range_end s t es table' v l cs ds behind
    ∙ elim (Bool-cases (range_contains e.1.range_start e.1.range_end v)) [
      | inl i ↦
          let nothing : page_at es v ≡ none =
            page_at-before e.1.range_end v es l (ground (arith, i)) in
          let whole : (inside && range_contains e.1.range_start e.1.range_end v)
              ≡ range_contains s t v =
            ground (arith, i) in
          rw (i, nothing)
            (same_branches (range_contains s t v) (table' v)
              (with_flags (initial_pte_permission e.1) (table v)) (table v)
              (here
                ∙ ap
                    (λ (b : Bool).
                      if b then with_flags (initial_pte_permission e.1) (table v) else table v)
                    whole))
      | inr i ↦
          let apart : (inside && range_contains e.1.range_start e.1.range_end v) ≡ false =
            ground (arith, i) in
          let kept : table' v ≡ table v =
            here
            ∙ ap
                (λ (b : Bool).
                  if b then with_flags (initial_pte_permission e.1) (table v) else table v)
                apart in
          rw i (
            ap (λ (x : Option Pte). if range_contains s t v then own_flags (page_at es v) x else x)
              kept)
    ]
