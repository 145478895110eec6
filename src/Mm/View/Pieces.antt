-- ===== src/Mm/View/Pieces.antt =====
-- What `munmap_locked` of os/src/mm/memory_set.rs leaves of each area, in the order of the areas, and
-- the proof that the edits of the tree at its end come to just that.
use os.Base.{
  ℕ, ◌≤◌, ◌<◌, ◌≡◌, ◌⊎◌, inl, inr, refl, ◌∙◌, sym, ap, true, false, not, ◌&&◌, List, [], ◌∷◌, ◌++◌,
  ltb, leb, ◌==◌, arith, if_cases, Option-cases, ==_refl,
}
use os.Mm.Table.{get, insert, remove}
use os.Mm.Area.{MapArea, Pages, clone_meta_with_new_range}
use os.Mm.Munmap.{
  Turn, delete_all, right_of, split_middle, delete_left_part, delete_right_part, untouched,
  munmap_area, Sweep, put_turn, sweep, remove_empty, rekey_area, rekey_areas, insert_new, commit,
}
use os.Mm.View.{Laid}

abbrev pub keyed : List MapArea → List (ℕ × MapArea)
keyed [] = []
keyed (a ∷ more) = (a.range_start, a) ∷ keyed more

-- The areas that a turn leaves under their final keys.
abbrev pub pieces_of : ℕ → Turn → List (ℕ × MapArea)
pieces_of key t = elim t.empty_keys [
  | [] ↦ elim t.rekey [
    | [] ↦ (key, t.area) ∷ keyed t.new_areas
    | (old_key, new_key) ∷ _ ↦ (new_key, t.area) ∷ []
  ]
  | _ ∷ _ ↦ []
]

unfoldable pub pieces : ℕ → ℕ → List (ℕ × MapArea) → Pages → List (ℕ × MapArea)
pieces s t [] pages = []
pieces s t (e ∷ es) pages =
    let turn = munmap_area s t e.0 e.1 pages in pieces_of e.0 turn ++ pieces s t es turn.pages

-- A turn is one of five, each with where the area lies.
pub munmap_area_cases {ℓ} :
    (P : Turn → Type ℓ) (s t key : ℕ) (a : MapArea) (pages : Pages)
    → ((t ≤ a.range_start) ⊎ (a.range_end ≤ s) → P (untouched a pages))
    → (s ≤ a.range_start → a.range_end ≤ t → P (delete_all key a pages))
    → (a.range_start < s → t < a.range_end → P (split_middle s t a pages))
    → (s ≤ a.range_start → a.range_start < t → t < a.range_end → P (delete_left_part t key a pages))
    → (a.range_start < s → s < a.range_end → a.range_end ≤ t → P (delete_right_part s a pages))
    → P (munmap_area s t key a pages)
unfolding munmap_area
munmap_area_cases P s t key a pages apart all middle left right =
    if_cases P (ltb a.range_start t && ltb s a.range_end)
      (λ meets.
        if_cases P (leb s a.range_start && leb a.range_end t)
          (λ e. all (ground arith) (ground arith))
          (λ e.
            if_cases P (not (leb s a.range_start) && not (leb a.range_end t))
              (λ f. middle (ground arith) (ground arith))
              (λ f.
                if_cases P (leb s a.range_start)
                  (λ g. left (ground arith) (ground arith) (ground arith))
                  (λ g. right (ground arith) (ground arith) (ground arith)))))
      (λ e. apart (ground arith))

-- The edits of areas behind the key.
abbrev KeysAbove : ℕ → List ℕ → Type 0
KeysAbove k [] = Unit
KeysAbove k (x ∷ xs) = (k < x) × KeysAbove k xs

abbrev PairsAbove : ℕ → List (ℕ × ℕ) → Type 0
PairsAbove k [] = Unit
PairsAbove k (x ∷ xs) = (k < x.0) × (k < x.1) × PairsAbove k xs

abbrev AreasAbove : ℕ → List MapArea → Type 0
AreasAbove k [] = Unit
AreasAbove k (a ∷ more) = (k < a.range_start) × AreasAbove k more

remove-head :
    (k : ℕ) (a : MapArea) (es : List (ℕ × MapArea)) (o : ℕ)
    → k < o
    → remove ((k, a) ∷ es) o ≡ (k, a) ∷ remove es o
unfolding remove
remove-head k a es o h = let other : (k == o) ≡ false = ground arith in rw other refl

pub insert-head :
    (k : ℕ) (a : MapArea) (es : List (ℕ × MapArea)) (n : ℕ) (b : MapArea)
    → k < n
    → insert ((k, a) ∷ es) n b ≡ (k, a) ∷ insert es n b
unfolding insert
insert-head k a es n b h =
    let later : (k == n) ≡ false = ground arith in
    let behind : ltb n k ≡ false = ground arith in rw (behind, later) refl

remove_empty-head :
    (k : ℕ) (a : MapArea) (es : List (ℕ × MapArea)) (keys : List ℕ)
    → KeysAbove k keys
    → remove_empty ((k, a) ∷ es) keys ≡ (k, a) ∷ remove_empty es keys
unfolding remove_empty
remove_empty-head k a es [] h = refl
remove_empty-head k a es (x ∷ xs) (h, hs) =
    ap (λ r. remove_empty r xs) (remove-head k a es x h) ∙ remove_empty-head k a (remove es x) xs hs

rekey_area-head :
    (k : ℕ) (a : MapArea) (es : List (ℕ × MapArea)) (o n : ℕ)
    → k < o
    → k < n
    → rekey_area ((k, a) ∷ es) o n ≡ (k, a) ∷ rekey_area es o n
unfolding rekey_area get
rekey_area-head k a es o n h h' =
    let other : (k == o) ≡ false = ground arith in
    elim (Option-cases (get es o)) [
      | inl e ↦ rw (rekey_area, other, e) refl
      | inr (b, e) ↦
          rw (rekey_area, other, e)
            (ap (λ x. insert x n b) (remove-head k a es o h) ∙ insert-head k a (remove es o) n b h')
    ]

rekey_areas-head :
    (k : ℕ) (a : MapArea) (es : List (ℕ × MapArea)) (keys : List (ℕ × ℕ))
    → PairsAbove k keys
    → rekey_areas ((k, a) ∷ es) keys ≡ (k, a) ∷ rekey_areas es keys
unfolding rekey_areas
rekey_areas-head k a es [] h = refl
rekey_areas-head k a es (r ∷ rekey) (h, h', hs) =
    ap (λ x. rekey_areas x rekey) (rekey_area-head k a es r.0 r.1 h h')
    ∙ rekey_areas-head k a (rekey_area es r.0 r.1) rekey hs

insert_new-head :
    (k : ℕ) (a : MapArea) (es : List (ℕ × MapArea)) (more : List MapArea)
    → AreasAbove k more
    → insert_new ((k, a) ∷ es) more ≡ (k, a) ∷ insert_new es more
unfolding insert_new
insert_new-head k a es [] h = refl
insert_new-head k a es (b ∷ more) (h, hs) =
    ap (λ r. insert_new r more) (insert-head k a es b.range_start b h)
    ∙ insert_new-head k a (insert es b.range_start b) more hs

-- Past the range, the sweep changes nothing.
sweep-beyond :
    (s t lo : ℕ) (es : List (ℕ × MapArea)) (pages : Pages)
    → Laid lo es
    → t ≤ lo
    → sweep s t es pages
      ≡ record { areas = es; pages = pages; empty_keys = []; rekey = []; new_areas = [] }
unfolding sweep munmap_area
sweep-beyond s t lo [] pages l h = refl
sweep-beyond s t lo (e ∷ es) pages (_, above, some_pages, l) h =
    let meets : (ltb e.1.range_start t && ltb s e.1.range_end) ≡ false = ground arith in
    rw (meets, sweep-beyond s t e.1.range_end es pages l (omega arith)) refl

pieces-beyond :
    (s t lo : ℕ) (es : List (ℕ × MapArea)) (pages : Pages)
    → Laid lo es
    → t ≤ lo
    → pieces s t es pages ≡ es
unfolding pieces munmap_area
pieces-beyond s t lo [] pages l h = refl
pieces-beyond s t lo (e ∷ es) pages (_, above, some_pages, l) h =
    let meets : (ltb e.1.range_start t && ltb s e.1.range_end) ≡ false = ground arith in
    rw meets (ap (λ r. e ∷ r) (pieces-beyond s t e.1.range_end es pages l (omega arith)))

-- An insert in front of all areas.
pub insert-front :
    (lo k : ℕ) (a : MapArea) (es : List (ℕ × MapArea))
    → Laid lo es
    → k < lo
    → insert es k a ≡ (k, a) ∷ es
unfolding insert
insert-front lo k a [] l h = refl
insert-front lo k a (e ∷ es) (same, above, _, _) h =
    let front : ltb k e.0 ≡ true = ground arith in rw front refl

-- What the areas from page `lo` on ask for stands behind any key in front of them.
record Above (k : ℕ) (s : Sweep) : Type 0 where
  keys : KeysAbove k s.empty_keys
  pairs : PairsAbove k s.rekey
  news : AreasAbove k s.new_areas

sweep-Above :
    (k s t lo : ℕ) (es : List (ℕ × MapArea)) (pages : Pages)
    → s ≤ t
    → Laid lo es
    → k < lo
    → Above k (sweep s t es pages)
unfolding sweep delete_all split_middle delete_left_part delete_right_part clone_meta_with_new_range
sweep-Above k s t lo [] pages h l k_lo = record { keys = tt; pairs = tt; news = tt }
sweep-Above k s t lo (e ∷ es) pages h (same, above, some_pages, l') k_lo =
    let later : (p : Pages) → Above k (sweep s t es p) =
      λ p. sweep-Above k s t e.1.range_end es p h l' (omega arith) in
    munmap_area_cases (λ (turn : Turn). Above k (put_turn e.0 turn (sweep s t es turn.pages))) s t
      e.0 e.1 pages
      (λ _. let b = later pages in record { keys = b.keys; pairs = b.pairs; news = b.news })
      (λ x y.
        let b = later (delete_all e.0 e.1 pages).pages in
        record { keys = (omega arith, b.keys); pairs = b.pairs; news = b.news })
      (λ x y.
        let b = later (split_middle s t e.1 pages).pages in
        record { keys = b.keys; pairs = b.pairs; news = (omega arith, b.news) })
      (λ x y z.
        let b = later (delete_left_part t e.0 e.1 pages).pages in
        record { keys = b.keys; pairs = (omega arith, omega arith, b.pairs); news = b.news })
      (λ x y z.
        let b = later (delete_right_part s e.1 pages).pages in
        record { keys = b.keys; pairs = b.pairs; news = b.news })

remove-front : (k : ℕ) (a : MapArea) (es : List (ℕ × MapArea)) → remove ((k, a) ∷ es) k ≡ es
unfolding remove
remove-front k a es = rw (==_refl k) refl

insert-second :
    (lo k t : ℕ) (a b : MapArea) (es : List (ℕ × MapArea))
    → Laid lo es
    → k < t
    → t < lo
    → insert ((k, a) ∷ es) t b ≡ (k, a) ∷ ((t, b) ∷ es)
insert-second lo k t a b es l h h' =
    insert-head k a es t b h ∙ ap (λ r. (k, a) ∷ r) (insert-front lo t b es l h')

rekey_area-front :
    (lo k t : ℕ) (a : MapArea) (es : List (ℕ × MapArea))
    → Laid lo es
    → t < lo
    → rekey_area ((k, a) ∷ es) k t ≡ (t, a) ∷ es
unfolding rekey_area get
rekey_area-front lo k t a es l h =
    rw (rekey_area, ==_refl k)
      (ap (λ x. insert x t a) (remove-front k a es) ∙ insert-front lo t a es l h)

-- An area that a turn leaves under its key stays in front.
commit-head :
    (k : ℕ) (a : MapArea) (rest : Sweep)
    → Above k rest
    → commit (record rest { areas = (k, a) ∷ rest.areas }) ≡ (k, a) ∷ commit rest
unfolding commit
commit-head k a rest b =
    ap (λ x. insert_new (rekey_areas x rest.rekey) rest.new_areas)
      (remove_empty-head k a rest.areas rest.empty_keys b.keys)
    ∙ ap (λ x. insert_new x rest.new_areas)
        (rekey_areas-head k a (remove_empty rest.areas rest.empty_keys) rest.rekey b.pairs)
    ∙ insert_new-head k a (rekey_areas (remove_empty rest.areas rest.empty_keys) rest.rekey)
        rest.new_areas b.news

-- The edits at the end of the sweep leave just the pieces of the areas, in their order.
pub commit-sweep :
    (s t lo : ℕ) (es : List (ℕ × MapArea)) (pages : Pages)
    → s ≤ t
    → Laid lo es
    → commit (sweep s t es pages) ≡ pieces s t es pages
unfolding commit sweep pieces remove_empty rekey_areas insert_new delete_all split_middle
    delete_left_part delete_right_part clone_meta_with_new_range
commit-sweep s t lo [] pages h l = refl
commit-sweep s t lo (e ∷ es) pages h (same, above, some_pages, l) =
    let later : (p : Pages) → commit (sweep s t es p) ≡ pieces s t es p =
      λ p. commit-sweep s t e.1.range_end es p h l in
    munmap_area_cases
      (λ (turn : Turn).
        commit (put_turn e.0 turn (sweep s t es turn.pages))
        ≡ pieces_of e.0 turn ++ pieces s t es turn.pages)
      s t e.0 e.1 pages (λ _. keep e.1 pages (later pages))
      (λ _ _.
        let r = sweep s t es (delete_all e.0 e.1 pages).pages in
        ap (λ x. insert_new (rekey_areas (remove_empty x r.empty_keys) r.rekey) r.new_areas)
          (remove-front e.0 (delete_all e.0 e.1 pages).area r.areas)
        ∙ later (delete_all e.0 e.1 pages).pages)
      (λ x y.
        let turn = split_middle s t e.1 pages in
        ap (λ w. commit (put_turn e.0 turn w))
          (sweep-beyond s t e.1.range_end es turn.pages l (omega arith))
        ∙ insert-second e.1.range_end e.0 t turn.area (right_of s t e.1 pages) es l (omega arith) y
        ∙ sym (
            ap (λ w. (e.0, turn.area) ∷ ((t, right_of s t e.1 pages) ∷ w))
              (pieces-beyond s t e.1.range_end es turn.pages l (omega arith))))
      (λ x y z.
        let turn = delete_left_part t e.0 e.1 pages in
        ap (λ w. commit (put_turn e.0 turn w))
          (sweep-beyond s t e.1.range_end es turn.pages l (omega arith))
        ∙ rekey_area-front e.1.range_end e.0 t turn.area es l z
        ∙ sym (
            ap (λ w. (t, turn.area) ∷ w)
              (pieces-beyond s t e.1.range_end es turn.pages l (omega arith))))
      (λ _ _ _.
        let turn = delete_right_part s e.1 pages in keep turn.area turn.pages (later turn.pages))
  where
    keep :
        (a : MapArea) (p : Pages)
        → commit (sweep s t es p) ≡ pieces s t es p
        → commit (record (sweep s t es p) { areas = (e.0, a) ∷ (sweep s t es p).areas })
          ≡ (e.0, a) ∷ pieces s t es p
    keep a p later =
        commit-head e.0 a (sweep s t es p)
          (sweep-Above e.0 s t e.1.range_end es p h l (omega arith))
        ∙ ap (λ r. (e.0, a) ∷ r) later
