-- ===== src/Mm/View/Search.antt =====
-- `has_conflict_locked` and `find_free_area_locked` of os/src/mm/memory_set.rs, in terms of pages.
use os.Base.{
  ◌↔◌, ◌⊎◌, ◌∙◌, inl, inr, refl, ℕ, ◌+◌, ◌*◌, ◌%◌, ◌^◌, Option, ◌≤◌, ◌<◌, ◌≡◌, refl, ◌∙◌, true,
  false, ◌&&◌, max, none, some, some_eq, List, [], ◌∷◌, ltb, leb, if◌then◌else◌, arith, dec_lt,
  Bool-cases, inl, inr, sym,
}
use mathlib.Core.Bool.{true≢false}
use os.Mm.Address.{va_from, page_size, user_app_max_size, std_floor, std_ceil, range_contains}
use os.Mm.Area.{MapArea}
use os.Mm.Space.{
  any_overlap, find_free_from, has_conflict_locked, find_free_area_locked, search_start,
}
use os.Mm.View.{Page, page_of, page_at, Laid, Below}

-- Without a conflict no page of the range is mapped.
pub any_overlap-none :
    (es : List (ℕ × MapArea)) (s t v : ℕ)
    → any_overlap es s t ≡ false
    → s ≤ v
    → v < t
    → page_at es v ≡ none
unfolding any_overlap page_at
any_overlap-none [] s t v e h k = refl
any_overlap-none (a ∷ es) s t v e h k =
    let later : any_overlap es s t ≡ false → page_at es v ≡ none =
      λ f. any_overlap-none es s t v f h k in
    grind arith

-- With one, some page of the range is.
abbrev pub SomePage : List (ℕ × MapArea) → ℕ → ℕ → Type 0
SomePage es s t = (v : ℕ) × (s ≤ v) × (v < t) × (p : Page) × (page_at es v ≡ some p)

pub page_at-there :
    (a : ℕ × MapArea) (es : List (ℕ × MapArea)) (v : ℕ)
    → range_contains a.1.range_start a.1.range_end v ≡ true
    → page_at (a ∷ es) v ≡ some (page_of a.1 v)
unfolding page_at
page_at-there a es v e = rw e refl

pub page_at-behind :
    (a : ℕ × MapArea) (es : List (ℕ × MapArea)) (v : ℕ) (p : Page)
    → page_at es v ≡ some p
    → (q : Page) × (page_at (a ∷ es) v ≡ some q)
unfolding page_at
page_at-behind a es v p e = elim (Bool-cases (range_contains a.1.range_start a.1.range_end v)) [
  | inl f ↦ (page_of a.1 v, rw f refl)
  | inr f ↦ (p, rw f e)
]

pub any_overlap-some :
    (lo : ℕ) (es : List (ℕ × MapArea)) (s t : ℕ)
    → Laid lo es
    → s < t
    → any_overlap es s t ≡ true
    → SomePage es s t
unfolding any_overlap
any_overlap-some lo [] s t l h e = absurd (true≢false (sym e))
any_overlap-some lo (a ∷ es) s t (same, above, some_pages, l) h e =
    elim (Bool-cases (ltb a.1.range_start t && ltb s a.1.range_end)) [
      | inl f ↦ (
        max s a.1.range_start,
        omega arith,
        ground arith,
        page_of a.1 (max s a.1.range_start),
        page_at-there a es (max s a.1.range_start) (ground arith),
      )
      | inr f ↦
          let (v, h1, h2, p, e') = any_overlap-some a.1.range_end es s t l h (ground (arith, e)) in
          let (q, e'') = page_at-behind a es v p e' in (v, h1, h2, q, e'')
    ]

pub any_overlap-lt :
    (lo : ℕ) (es : List (ℕ × MapArea)) (s t : ℕ) → Laid lo es → t ≤ lo → any_overlap es s t ≡ false
unfolding any_overlap
any_overlap-lt lo [] s t l h = refl
any_overlap-lt lo (a ∷ es) s t (same, above, some_pages, l) h =
    ground (arith, any_overlap-lt a.1.range_end es s t l (omega arith))

-- The search, where the sum does not wrap around.
unfoldable search_from : ℕ → ℕ → List (ℕ × MapArea) → Option ℕ
search_from length current [] =
    if ltb (current + length) user_app_max_size then some current else none
search_from length current (e ∷ es) =
    let area_end : ℕ = e.1.range_end * page_size in
    let rest = search_from length (if ltb current area_end then area_end else current) es in
    if leb (current + length) (e.1.range_start * page_size) then some current else rest

find_free_from_lem :
    (length current : ℕ) (es : List (ℕ × MapArea))
    → Below es
    → length < 2 ^ 63
    → current ≤ user_app_max_size
    → find_free_from length current es ≡ search_from length current es
unfolding find_free_from search_from
find_free_from_lem length current [] b n c =
    let sum : (current + length) % 2 ^ 64 ≡ current + length = omega arith in rw sum refl
find_free_from_lem length current (e ∷ es) (b, bs) n c =
    let sum : (current + length) % 2 ^ 64 ≡ current + length = omega arith in
    let next : ℕ =
      if ltb current (e.1.range_end * page_size) then e.1.range_end * page_size else current in
    let later : find_free_from length next es ≡ search_from length next es =
      find_free_from_lem length next es bs n (ground arith) in
    rw (sum, later) refl

-- An address that the search returns.
search_from-free :
    (length current lo : ℕ) (es : List (ℕ × MapArea)) (a : ℕ)
    → Laid lo es
    → current % page_size ≡ 0
    → search_from length current es ≡ some a
    → (current ≤ a)
      × (a % page_size ≡ 0)
      × (any_overlap es (std_floor a) (std_ceil (a + length)) ≡ false)
unfolding search_from any_overlap
search_from-free length current lo [] a l m e =
    let same : current ≡ a = some_eq (ground (arith, e)) in (omega arith, ground (arith, m), refl)
search_from-free length current lo (x ∷ es) a (same, above, some_pages, l) m e =
    elim (Bool-cases (leb (current + length) (x.1.range_start * page_size))) [
      | inl f ↦
          let here : current ≡ a = some_eq (ground (arith, e)) in
          (
            omega arith,
            omega (arith, m, here),
            any_overlap-lt x.1.range_start (x ∷ es) (std_floor a) (std_ceil (a + length))
                (same, omega arith, some_pages, l) (ground arith),
          )
      | inr f ↦
          let next : ℕ =
            if ltb current (x.1.range_end * page_size)
            then x.1.range_end * page_size
            else current in
          let further : search_from length next es ≡ some a = ground (arith, e) in
          let (h, h', h'') =
            search_from-free length next x.1.range_end es a l (ground (arith, m)) further in
          (ground arith, h', ground (arith, h''))
    ]

-- It is below the end of the user half when the areas are.
search_from-lt :
    (length current lo : ℕ) (es : List (ℕ × MapArea)) (a : ℕ)
    → Laid lo es
    → Below es
    → search_from length current es ≡ some a
    → a + length < user_app_max_size
unfolding search_from
search_from-lt length current lo [] a l b e = ground (arith, e)
search_from-lt length current lo (x ∷ es) a (same, above, some_pages, l) (b, bs) e =
    elim (Bool-cases (leb (current + length) (x.1.range_start * page_size))) [
      | inl f ↦ let here : current ≡ a = some_eq (ground (arith, e)) in ground arith
      | inr f ↦
          let next : ℕ =
            if ltb current (x.1.range_end * page_size)
            then x.1.range_end * page_size
            else current in
          search_from-lt length next x.1.range_end es a l bs (ground (arith, e))
    ]

-- When the search fails, every range of the length above the first address conflicts.
search_from-none :
    (length current lo : ℕ) (es : List (ℕ × MapArea)) (a : ℕ)
    → Laid lo es
    → 0 < length
    → search_from length current es ≡ none
    → current ≤ a
    → a + length < user_app_max_size
    → any_overlap es (std_floor a) (std_ceil (a + length)) ≡ true
unfolding search_from any_overlap
search_from-none length current lo [] a l n e h k = absurd (ground (arith, e))
search_from-none length current lo (x ∷ es) a (same, above, some_pages, l) n e h k =
    let next : ℕ =
      if ltb current (x.1.range_end * page_size) then x.1.range_end * page_size else current in
    let full : leb (current + length) (x.1.range_start * page_size) ≡ false = ground (arith, e) in
    let further : search_from length next es ≡ none = ground (arith, e) in
    elim (dec_lt a (x.1.range_end * page_size)) [
      | yes p ↦ ground arith
      | no p ↦
          let rest = search_from-none length next x.1.range_end es a l n further (ground arith) k in
          ground (arith, rest)
    ]

-- An address that the search returns, below the end of the user half when the areas are.
pub find_free_from-free :
    (length lo : ℕ) (es : List (ℕ × MapArea)) (a : ℕ)
    → Laid lo es
    → Below es
    → length < 2 ^ 63
    → find_free_area_locked length es ≡ some a
    → (a % page_size ≡ 0)
      × (a + length < user_app_max_size)
      × (any_overlap es (std_floor a) (std_ceil (a + length)) ≡ false)
find_free_from-free length lo es a l b n e =
    let same = find_free_from_lem length search_start es b n (omega arith) in
    let (_, m, f) = search_from-free length search_start lo es a l refl (sym same ∙ e) in
    (m, search_from-lt length search_start lo es a l b (sym same ∙ e), f)

pub same_range :
    (es : List (ℕ × MapArea)) (a length : ℕ)
    → a + length < user_app_max_size
    → has_conflict_locked es a length ≡ any_overlap es (std_floor a) (std_ceil (a + length))
same_range es a length b =
    let floor : va_from a ≡ a = omega arith in
    let ceil : va_from (a + length) ≡ a + length = omega arith in rw (floor, ceil) refl

-- An address that `find_free_area_locked` returns for a length below 2 ^ 63 is page-aligned, the range from
-- it on ends in the user half, and it conflicts with no area. The areas are in order and end in the
-- user half.
pub find_free_area_locked-free :
    (length : ℕ) (es : List (ℕ × MapArea)) (a : ℕ)
    → Laid 0 es
    → Below es
    → length < 2 ^ 63
    → find_free_area_locked length es ≡ some a
    → (a % page_size ≡ 0)
      × (a + length < user_app_max_size)
      × (has_conflict_locked es a length ≡ false)
find_free_area_locked-free length es a l below n e =
    let (m, bound, f) = find_free_from-free length 0 es a l below n e in
    (m, bound, same_range es a length bound ∙ f)

-- When `find_free_area_locked` finds none for a positive length, every range of that length from its
-- first address on that ends before the last byte of the user half conflicts with an area. The areas are
-- in order and end in the user half.
pub find_free_area_locked-none :
    (length : ℕ) (es : List (ℕ × MapArea)) (a : ℕ)
    → Laid 0 es
    → Below es
    → 0 < length
    → find_free_area_locked length es ≡ none
    → search_start ≤ a
    → a + length < user_app_max_size
    → has_conflict_locked es a length ≡ true
find_free_area_locked-none length es a l below n e h b =
    let same = find_free_from_lem length search_start es below (omega arith) (omega arith) in
    same_range es a length b ∙ search_from-none length search_start 0 es a l n (sym same ∙ e) h b

-- For a range of positive length in the user half, `has_conflict_locked` says no just when no page of
-- it is in an area. The areas are in order.
pub has_conflict_locked_iff :
    (es : List (ℕ × MapArea)) (start len : ℕ)
    → Laid 0 es
    → 0 < len
    → start + len < user_app_max_size
    → (has_conflict_locked es start len ≡ true)
      ↔ SomePage es (std_floor start) (std_ceil (start + len))
has_conflict_locked_iff es start len l n b = (
  λ e.
      any_overlap-some 0 es (std_floor start) (std_ceil (start + len)) l (omega arith)
        (sym (same_range es start len b) ∙ e),
  λ (v, h, k, p, e).
      same_range es start len b
      ∙ conflict v h k p e (Bool-cases (any_overlap es (std_floor start) (std_ceil (start + len)))),
)
  where
    conflict :
        (v : ℕ)
        → std_floor start ≤ v
        → v < std_ceil (start + len)
        → (p : Page) → page_at es v ≡ some p
        → (any_overlap es (std_floor start) (std_ceil (start + len)) ≡ true)
          ⊎ (any_overlap es (std_floor start) (std_ceil (start + len)) ≡ false)
        → any_overlap es (std_floor start) (std_ceil (start + len)) ≡ true
    conflict v h k p e (inl f) = f
    conflict v h k p e (inr f) =
        let gone : page_at es v ≡ none =
          any_overlap-none es (std_floor start) (std_ceil (start + len)) v f h k in
        absurd cc
