-- ===== src/Mm/Protect/Keys.antt =====
-- The first and the last area that `mprotect` and `mlock_range` of os/src/mm/memory_set.rs find are the
-- only ones that the ends of the range may cut, and when their checks pass there is no hole in it.
use os.Base.{
  ℕ, ◌+◌, ◌%◌, ◌≤◌, ◌<◌, ◌≡◌, ◌⊎◌, inl, inr, refl, ◌∙◌, sym, ap, Bool, false, not, ◌&&◌, ◌||◌, some,
  List, [], ◌∷◌, ltb, ◌==◌, if◌then◌else◌, arith, if_cases, Bool-cases, dec_lt,
}
use mathlib.Core.Path.{subst}
use mathlib.Core.Bool.{true≢false}
use os.Frames.{num_pages}
use os.Mm.Address.{range_contains}
use os.Mm.Table.{split_low}
use os.Mm.Area.{MapArea, is_guard}
use os.Mm.Space.{Errno, Result, ok, err}
use os.Mm.View.Search.{page_at-there, page_at-behind}
use os.Mm.Protect.{all_after, scan_back, affected, unwritable, check_areas, last_key}
use os.Mm.Protect.Split.{straddles, Only, Clear, Laid-Clear}
use os.Mm.View.{Page, page_of, page_at, Laid}

Clear-Only : (key k : ℕ) (es : List (ℕ × MapArea)) → Clear k es → Only key k es
Clear-Only key k [] c = tt
Clear-Only key k (e ∷ es) (c, cs) = (inl c, Clear-Only key k es cs)

-- No area is below page `t`, or the first one is.
split_low-lt : (lo t : ℕ) (es : List (ℕ × MapArea)) → Laid lo es → (split_low es t ≡ []) ⊎ (lo < t)
unfolding split_low
split_low-lt lo t [] l = inl refl
split_low-lt lo t (e ∷ es) (same, above, some_pages, l) = elim (dec_lt e.0 t) [
  | yes h ↦ inr (omega arith)
  | no h ↦
      let far : ltb e.0 t ≡ false = ground arith in
      elim (split_low-lt e.1.range_end t es l) [
        | inl p ↦ inl (rw far p)
        | inr lt ↦ absurd (omega arith)
      ]
]

last_key-Only :
    (lo t d : ℕ) (es : List (ℕ × MapArea)) → Laid lo es → Only (last_key d (split_low es t)) t es
unfolding split_low
last_key-Only lo t d [] l = tt
last_key-Only lo t d (e ∷ es) (same, above, some_pages, l) =
    if_cases (λ r. Only (last_key d r) t (e ∷ es)) (ltb e.0 t)
      (λ h. (head (split_low-lt e.1.range_end t es l), last_key-Only e.1.range_end t e.0 es l))
      (λ h. (inl (ground arith), last_key-Only e.1.range_end t d es l))
  where
    head :
        (split_low es t ≡ []) ⊎ (e.1.range_end < t)
        → (straddles e.1 t ≡ false) ⊎ (e.0 ≡ last_key e.0 (split_low es t))
    head (inl p) = inr (rw p refl)
    head (inr lt) = inl (ground arith)

-- What the scan finds ends where the areas below `t` end.
scan_back-last_key :
    (s d : ℕ) (es : List (ℕ × MapArea)) (x : ℕ × MapArea) (more : List (ℕ × MapArea))
    → scan_back s es ≡ x ∷ more
    → last_key x.0 more ≡ last_key d es
unfolding scan_back
scan_back-last_key s d [] x more e = absurd cc
scan_back-last_key s d (a ∷ es) x more e =
    if_cases (λ r. r ≡ x ∷ more → last_key x.0 more ≡ last_key d (a ∷ es)) (all_after s (a ∷ es))
      (λ _ f. sym (ap (last_key 0) f)) (λ _ f. scan_back-last_key s a.0 es x more f) e

pub affected-last :
    (lo s t : ℕ) (es : List (ℕ × MapArea)) (x : ℕ × MapArea) (more : List (ℕ × MapArea))
    → Laid lo es
    → affected es s t ≡ x ∷ more
    → Only (last_key x.0 more) t es
affected-last lo s t es x more l e =
    subst (λ k. Only k t es) (sym (scan_back-last_key s 0 (split_low es t) x more e))
      (last_key-Only lo t 0 es l)

not_all_after :
    (lo s t : ℕ) (es : List (ℕ × MapArea))
    → Laid lo es
    → all_after s (split_low es t) ≡ false
    → lo < s
unfolding all_after split_low
not_all_after lo s t [] l e = absurd (true≢false e)
not_all_after lo s t (a ∷ es) (same, above, some_pages, l) e = elim (dec_lt a.1.range_end (s + 1)) [
  | yes h ↦ omega arith
  | no h ↦
      let later : all_after s (split_low es t) ≡ false = ground (arith, e) in
      let k = not_all_after a.1.range_end s t es l later in omega arith
]

abbrev first_key : List (ℕ × MapArea) → ℕ
first_key [] = 0
first_key (y ∷ ys) = y.0

pub affected-first :
    (lo s t : ℕ) (es : List (ℕ × MapArea)) (x : ℕ × MapArea) (more : List (ℕ × MapArea))
    → Laid lo es
    → s < t
    → affected es s t ≡ x ∷ more
    → Only x.0 s es
unfolding scan_back split_low all_after
affected-first lo s t [] x more l h e = tt
affected-first lo s t (a ∷ es) x more (same, above, some_pages, l) h e =
    if_cases (λ r. scan_back s r ≡ x ∷ more → Only x.0 s (a ∷ es)) (ltb a.0 t)
      (λ below.
        if_cases (λ r. r ≡ x ∷ more → Only x.0 s (a ∷ es)) (all_after s (a ∷ split_low es t))
          (λ all f. (
            inr (ap first_key f),
            Clear-Only x.0 s es (Laid-Clear a.1.range_end s es l (ground (arith, all))),
          ))
          (λ not_all f. (
            inl (ground (arith, before not_all)),
            affected-first a.1.range_end s t es x more l h f,
          )))
      (λ far f. (inl (ground arith), affected-first a.1.range_end s t es x more l h f)) e
  where
    before : all_after s (a ∷ split_low es t) ≡ false → a.1.range_end ≤ s
    before n = elim (dec_lt s a.1.range_end) [
      | yes p ↦
          let later : all_after s (split_low es t) ≡ false = ground (arith, n) in
          let k = not_all_after a.1.range_end s t es l later in omega arith
      | no p ↦ omega arith
    ]

-- The pages up to which the checks come are all in an area.
abbrev pub MappedAt : List (ℕ × MapArea) → ℕ → Type 0
MappedAt es v = (p : Page) × (page_at es v ≡ some p)

ok_eq : {a b : ℕ} → ok a ≡ ok b → a ≡ b
ok_eq {a} e = ap value e
  where
    value : Result ℕ → ℕ
    value (ok x) = x
    value (err _) = a

err_ok : {e : Errno} {c : ℕ} → err e ≡ ok c → ⊥
err_ok f = cc

page_at-past :
    (a : ℕ × MapArea) (es : List (ℕ × MapArea)) (v : ℕ)
    → range_contains a.1.range_start a.1.range_end v ≡ false
    → page_at (a ∷ es) v ≡ page_at es v
unfolding page_at
page_at-past a es v e = rw e refl

check_areas-MappedAt :
    (s t : ℕ) (write : Bool) (covered : ℕ) (es : List (ℕ × MapArea)) (c v : ℕ)
    → check_areas s t write covered es ≡ ok c
    → covered ≤ v
    → v < c
    → MappedAt es v
unfolding check_areas
check_areas-MappedAt s t write covered [] c v e h k =
    let same : covered ≡ c = ok_eq e in absurd (omega arith)
check_areas-MappedAt s t write covered (a ∷ es) c v e h k =
    let next : ℕ = if ltb covered a.1.range_end then a.1.range_end else covered in
    if_cases (λ (r : Result ℕ). r ≡ ok c → MappedAt (a ∷ es) v)
      (is_guard a.1.map_type || ltb covered a.1.range_start) (λ _ f. absurd (err_ok f))
      (λ clear f.
        if_cases (λ (r : Result ℕ). r ≡ ok c → MappedAt (a ∷ es) v)
          (write && (a.1.is_shared && unwritable a.1.backing_file)) (λ _ g. absurd (err_ok g))
          (λ _ g.
            if_cases (λ (r : Result ℕ). r ≡ ok c → MappedAt (a ∷ es) v)
              (not (s % num_pages a.1.area_page_size == 0)
                || not (t % num_pages a.1.area_page_size == 0))
              (λ _ i. absurd (err_ok i))
              (λ _ i. elim (dec_lt v a.1.range_end) [
                | yes p ↦ (page_of a.1 v, page_at-there a es v (ground (arith, clear)))
                | no p ↦
                    let (q, f') = check_areas-MappedAt s t write next es c v i (ground arith) k in
                    page_at-behind a es v q f'
              ])
              g)
          f)
      e

-- A list with an area more has the pages that it had.
page_at-scan_back :
    (s v : ℕ) (es : List (ℕ × MapArea)) → MappedAt (scan_back s es) v → MappedAt es v
unfolding scan_back
page_at-scan_back s v [] m = m
page_at-scan_back s v (a ∷ es) m =
    if_cases (λ r. MappedAt r v → MappedAt (a ∷ es) v) (all_after s (a ∷ es)) (λ _ n. n)
      (λ _ n. let (q, e) = page_at-scan_back s v es n in page_at-behind a es v q e) m

page_at-split_low :
    (t v : ℕ) (es : List (ℕ × MapArea)) → MappedAt (split_low es t) v → MappedAt es v
unfolding split_low
page_at-split_low t v [] m = m
page_at-split_low t v (a ∷ es) m =
    if_cases (λ r. MappedAt r v → MappedAt (a ∷ es) v) (ltb a.0 t)
      (λ _ (n, e). elim (Bool-cases (range_contains a.1.range_start a.1.range_end v)) [
        | inl h ↦ (page_of a.1 v, page_at-there a es v h)
        | inr h ↦
            let (q, f) =
              page_at-split_low t v es (n, sym (page_at-past a (split_low es t) v h) ∙ e) in
            page_at-behind a es v q f
      ])
      (λ _ n. let (q, e) = page_at-split_low t v es n in page_at-behind a es v q e) m

pub affected-MappedAt :
    (s t : ℕ) (write : Bool) (es : List (ℕ × MapArea)) (c v : ℕ)
    → check_areas s t write s (affected es s t) ≡ ok c
    → s ≤ v
    → v < c
    → MappedAt es v
affected-MappedAt s t write es c v e h k = page_at-split_low t v es (
    page_at-scan_back s v (split_low es t)
      (check_areas-MappedAt s t write s (affected es s t) c v e h k))
