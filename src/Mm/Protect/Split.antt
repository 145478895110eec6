-- ===== src/Mm/Protect/Split.antt =====
-- What `split_area_at` of os/src/mm/memory_set.rs comes to: the one area that a page cuts is split.
use os.Base.{
  ℕ, ◌%◌, ◌≤◌, ◌<◌, ◌≡◌, ◌⊎◌, inl, inr, refl, ◌∙◌, sym, ap, Bool, true, false, not, ◌&&◌, ◌||◌,
  some, some_eq, List, [], ◌∷◌, ltb, leb, ◌==◌, if◌then◌else◌, arith, if_cases, Bool-cases,
  option_split, ==_refl, ℕ_discrete,
}
use mathlib.Core.Path.{subst}
use mathlib.Core.Bool.{true≢false}
use os.Mm.Mmap.Placed.{OnOk, ok-OnOk}
use os.Frames.{num_pages}
use os.Mm.Table.{get, insert}
use os.Mm.Area.{MapArea}
use os.Mm.Space.{ok}
use os.Mm.Protect.{left_part, right_part, split_area_at}
use os.Mm.View.{Laid}
use os.Mm.View.Pieces.{insert-head, insert-front}

abbrev pub straddles : MapArea → ℕ → Bool
straddles a k = ltb a.range_start k && ltb k a.range_end

unfoldable pub cut : List (ℕ × MapArea) → ℕ → List (ℕ × MapArea)
cut [] k = []
cut (e ∷ es) k =
    let rest = cut es k in
    if straddles e.1 k then (e.0, left_part e.1 k) ∷ ((k, right_part e.1 k) ∷ es) else e ∷ rest

-- No area but one under the key is cut by the page.
abbrev pub Only : ℕ → ℕ → List (ℕ × MapArea) → Type 0
Only key k [] = Unit
Only key k (e ∷ es) = ((straddles e.1 k ≡ false) ⊎ (e.0 ≡ key)) × Only key k es

abbrev pub Clear : ℕ → List (ℕ × MapArea) → Type 0
Clear k [] = Unit
Clear k (e ∷ es) = (straddles e.1 k ≡ false) × Clear k es

pub cut-Clear_same : (es : List (ℕ × MapArea)) (k : ℕ) → Clear k es → cut es k ≡ es
unfolding cut
cut-Clear_same [] k c = refl
cut-Clear_same (e ∷ es) k (c, cs) = rw c (ap (λ r. e ∷ r) (cut-Clear_same es k cs))

pub Laid-Clear : (lo k : ℕ) (es : List (ℕ × MapArea)) → Laid lo es → k ≤ lo → Clear k es
Laid-Clear lo k [] l h = tt
Laid-Clear lo k (e ∷ es) (same, above, some_pages, l) h =
    (ground arith, Laid-Clear e.1.range_end k es l (omega arith))

pub get-le :
    (lo key : ℕ) (es : List (ℕ × MapArea)) (a : MapArea)
    → Laid lo es
    → get es key ≡ some a
    → lo ≤ key
unfolding get
get-le lo key [] a l e = absurd cc
get-le lo key (x ∷ es) a (same, above, some_pages, l) e = elim (ℕ_discrete x.0 key) [
  | yes p ↦ omega arith
  | no p ↦
      let later : get es key ≡ some a = ground (arith, e) in
      let h = get-le x.1.range_end key es a l later in omega arith
]

pub get-start :
    (lo key : ℕ) (es : List (ℕ × MapArea)) (a : MapArea)
    → Laid lo es
    → get es key ≡ some a
    → a.range_start ≡ key
unfolding get
get-start lo key [] a l e = absurd cc
get-start lo key (x ∷ es) a (same, above, some_pages, l) e = elim (ℕ_discrete x.0 key) [
  | yes p ↦
      let here : x.1 ≡ a = some_eq (ground (arith, e)) in
      sym (ap (λ (m : MapArea). m.range_start) here) ∙ sym same ∙ p
  | no p ↦
      let later : get es key ≡ some a = ground (arith, e) in
      get-start x.1.range_end key es a l later
]

pub insert-replace :
    (k : ℕ) (a : MapArea) (es : List (ℕ × MapArea)) (b : MapArea)
    → insert ((k, a) ∷ es) k b ≡ (k, b) ∷ es
unfolding insert
insert-replace k a es b = let here : ltb k k ≡ false = ground arith in rw (here, ==_refl k) refl

-- Splitting the area that is cut.
insert-cut :
    (lo key k : ℕ) (es : List (ℕ × MapArea)) (a : MapArea)
    → Laid lo es
    → get es key ≡ some a
    → straddles a k ≡ true
    → insert (insert es key (left_part a k)) k (right_part a k) ≡ cut es k
unfolding get cut
insert-cut lo key k [] a l e s = absurd cc
insert-cut lo key k (x ∷ es) a (same, above, some_pages, l) e s = elim (ℕ_discrete x.0 key) [
  | yes p ↦
      let here : x.1 ≡ a = some_eq (ground (arith, e)) in
      let s' : straddles x.1 k ≡ true = subst (λ m. straddles m k ≡ true) (sym here) s in
      let before : x.0 < k = ground arith in
      let inside : k < x.1.range_end = ground arith in
      ap (λ m. insert (insert (x ∷ es) key (left_part m k)) k (right_part m k)) (sym here)
      ∙ ap (λ j. insert (insert (x ∷ es) j (left_part x.1 k)) k (right_part x.1 k)) (sym p)
      ∙ ap (λ r. insert r k (right_part x.1 k)) (insert-replace x.0 x.1 es (left_part x.1 k))
      ∙ insert-head x.0 (left_part x.1 k) es k (right_part x.1 k) before
      ∙ ap (λ r. (x.0, left_part x.1 k) ∷ r)
          (insert-front x.1.range_end k (right_part x.1 k) es l inside)
      ∙ rw s' refl
  | no p ↦
      let later : get es key ≡ some a = ground (arith, e) in
      let behind = get-le x.1.range_end key es a l later in
      let start = get-start x.1.range_end key es a l later in
      let first : x.0 < key = omega arith in
      let second : x.0 < k = ground arith in
      let whole : straddles x.1 k ≡ false = ground arith in
      ap (λ r. insert r k (right_part a k)) (insert-head x.0 x.1 es key (left_part a k) first)
      ∙ insert-head x.0 x.1 (insert es key (left_part a k)) k (right_part a k) second
      ∙ ap (λ r. x ∷ r) (insert-cut x.1.range_end key k es a l later s)
      ∙ rw whole refl
]

Only-Clear :
    (lo key k : ℕ) (es : List (ℕ × MapArea))
    → Laid lo es
    → Only key k es
    → ((a : MapArea) × (get es key ≡ some a) × (straddles a k ≡ true)) ⊎ Clear k es
unfolding get
Only-Clear lo key k [] l o = inr tt
Only-Clear lo key k (x ∷ es) (same, above, some_pages, l) (h, o) =
    elim (Bool-cases (straddles x.1 k)) [
      | inl s ↦ inl (x.1, ground (arith, h), s)
      | inr s ↦ elim (Only-Clear x.1.range_end key k es l o) [
        | inl (a, e, t) ↦
            let behind = get-le x.1.range_end key es a l e in inl (a, ground (arith, e), t)
        | inr c ↦ inr (s, c)
      ]
    ]

get-Clear :
    (key k : ℕ) (es : List (ℕ × MapArea)) (a : MapArea)
    → Clear k es
    → get es key ≡ some a
    → straddles a k ≡ false
unfolding get
get-Clear key k [] a c e = absurd cc
get-Clear key k (x ∷ es) a (c, cs) e = elim (ℕ_discrete x.0 key) [
  | yes p ↦
      let here : x.1 ≡ a = some_eq (ground (arith, e)) in subst (λ m. straddles m k ≡ false) here c
  | no p ↦ get-Clear key k es a cs (ground (arith, e))
]

clash :
    (k : ℕ) (a : MapArea)
    → straddles a k ≡ true
    → (leb k a.range_start || leb a.range_end k) ≡ true
    → ⊥
clash k a t h = true≢false (ground (arith, t, h))

-- `split_area_at` of the only area that may be cut.
pub split_area_at-cut :
    (lo key k : ℕ) (es es' : List (ℕ × MapArea))
    → Laid lo es
    → Only key k es
    → split_area_at es key k ≡ ok es'
    → es' ≡ cut es k
unfolding split_area_at
split_area_at-cut lo key k es es' l o e =
    ok-OnOk P (split_area_at es key k) es' (split (Only-Clear lo key k es l o)) e
  where
    P : List (ℕ × MapArea) → Type 0
    P r = r ≡ cut es k

    split :
        ((a : MapArea) × (get es key ≡ some a) × (straddles a k ≡ true)) ⊎ Clear k es
        → OnOk P (split_area_at es key k)
    split (inl (a, g, t)) =
        rw (split_area_at, g)
          (if_cases (OnOk P) (leb k a.range_start || leb a.range_end k)
            (λ h. absurd (clash k a t h))
            (λ _.
              if_cases (OnOk P) (not (k % num_pages a.area_page_size == 0)) (λ _. tt)
                (λ _. insert-cut lo key k es a l g t)))
    split (inr c) =
        option_split (OnOk P) (get es key) (λ _. sym (cut-Clear_same es k c))
          (λ a g.
            if_cases (OnOk P) (leb k a.range_start || leb a.range_end k)
              (λ _. sym (cut-Clear_same es k c))
              (λ h.
                let t : straddles a k ≡ true = ground (arith, h) in
                absurd (true≢false (sym t ∙ get-Clear key k es a c g))))
