-- ===== src/Mm/View/Cuts.antt =====
-- The cut areas of `munmap_locked` and `split_area_at` of os/src/mm/memory_set.rs, page by page.
use os.Base.{
  ℕ, suc, zero, ◌+◌, ◌-◌, ◌≤◌, ◌<◌, ◌≡◌, ◌≢◌, ◌⊎◌, inl, inr, refl, ◌∙◌, ap, Bool, false, Option,
  none, some, List, [], ◌∷◌, ltb, if◌then◌else◌, arith, if_cases, option_cases, Bool-cases, ltb→lt,
}
use mathlib.Core.Path.{ap₂}
use os.Mm.Table.{get, remove, split_low, split_high}
use os.Mm.Area.{
  MapType, framed, file, identical, windowed, borrowed_kernel, guard, File, MapArea, Pages,
  unmap_one, unmap_one_as, unmap_frame, push_released, unmap_loop, unmap_pages, resize,
  clone_meta_with_new_range,
}
use os.Mm.View.{file_page_of, page_of}

module _ {ℓ} {A : Type ℓ} where
  pub get-remove_ne : (es : List (ℕ × A)) (k v : ℕ) → v ≢ k → get (remove es k) v ≡ get es v
  unfolding get remove
  get-remove_ne [] k v h = refl
  get-remove_ne (e ∷ es) k v h = ground (arith, get-remove_ne es k v h)

  pub get-split_low : (es : List (ℕ × A)) (k v : ℕ) → v < k → get (split_low es k) v ≡ get es v
  unfolding get split_low
  get-split_low [] k v h = refl
  get-split_low (e ∷ es) k v h = ground (arith, get-split_low es k v h)

  pub get-split_high : (es : List (ℕ × A)) (k v : ℕ) → k ≤ v → get (split_high es k) v ≡ get es v
  unfolding get split_high
  get-split_high [] k v h = refl
  get-split_high (e ∷ es) k v h = ground (arith, get-split_high es k v h)

-- The area with other frames that agree at the page `v`.
abbrev pub SameBut : MapArea → ℕ → MapArea → Type 0
SameBut a v a' =
    (frames : List (ℕ × ℕ)) × (a' ≡ record a { data_frames = frames })
    × (get frames v ≡ get a.data_frames v)

unmap_frame-SameBut :
    (a : MapArea) (pages : Pages) (vpn v : ℕ) → v ≢ vpn → SameBut a v (unmap_frame a pages vpn).1.0
unmap_frame-SameBut a pages vpn v h =
    option_cases (λ (r : Option ℕ × (MapArea × Pages)). SameBut a v r.1.0) (get a.data_frames vpn)
      (a.data_frames, refl, refl)
      (λ _. (remove a.data_frames vpn, refl, get-remove_ne a.data_frames vpn v h))

pub unmap_one-SameBut :
    (t : MapType) (a : MapArea) (pages : Pages) (vpn v : ℕ)
    → v ≢ vpn
    → SameBut a v (unmap_one_as t a pages vpn).1.0
unmap_one-SameBut framed a pages vpn v h = unmap_frame-SameBut a pages vpn v h
unmap_one-SameBut file a pages vpn v h = unmap_frame-SameBut a pages vpn v h
unmap_one-SameBut identical a pages vpn v h = (a.data_frames, refl, refl)
unmap_one-SameBut windowed a pages vpn v h = (a.data_frames, refl, refl)
unmap_one-SameBut borrowed_kernel a pages vpn v h = (a.data_frames, refl, refl)
unmap_one-SameBut guard a pages vpn v h = (a.data_frames, refl, refl)

SameBut-trans : (a b c : MapArea) (v : ℕ) → SameBut a v b → SameBut b v c → SameBut a v c
SameBut-trans a b c v (fs, e, g) (fs', e', g') = (
  fs',
  e' ∙ ap (λ (m : MapArea). record m { data_frames = fs' }) e,
  g' ∙ ap (λ (m : MapArea). get m.data_frames v) e ∙ g,
)

unmap_loop-SameBut :
    (fuel step vpn bound : ℕ) (a : MapArea) (pages : Pages) (v : ℕ)
    → (v < vpn) ⊎ (bound ≤ v)
    → SameBut a v (unmap_loop fuel step vpn bound a pages).0
unfolding unmap_loop unmap_one
unmap_loop-SameBut zero step vpn bound a pages v h = (a.data_frames, refl, refl)
unmap_loop-SameBut (suc fuel) step vpn bound a pages v h = elim (Bool-cases (ltb vpn bound)) [
  | inr e ↦ rw (e, unmap_loop) (a.data_frames, refl, refl)
  | inl e ↦
      let r = unmap_one a pages vpn in
      rw (e, unmap_loop)
        (SameBut-trans a r.1.0
          (unmap_loop fuel step (vpn + step) bound r.1.0 (push_released r.0 r.1.1)).0 v
          (unmap_one-SameBut a.map_type a pages vpn v (λ p. beside p h (ltb→lt vpn bound e)))
          (unmap_loop-SameBut fuel step (vpn + step) bound r.1.0 (push_released r.0 r.1.1) v
            (later h)))
]
  where
    beside : v ≡ vpn → (v < vpn) ⊎ (bound ≤ v) → vpn < bound → ⊥
    beside p (inl k) l = omega arith
    beside p (inr k) l = omega arith

    later : (v < vpn) ⊎ (bound ≤ v) → (v < vpn + step) ⊎ (bound ≤ v)
    later (inl k) = inl (omega arith)
    later (inr k) = inr k

pub unmap_pages-SameBut :
    (step vpn bound : ℕ) (a : MapArea) (pages : Pages) (v : ℕ)
    → (v < vpn) ⊎ (bound ≤ v)
    → SameBut a v (unmap_pages step vpn bound a pages).0
unfolding unmap_pages
unmap_pages-SameBut step vpn bound a pages v h =
    unmap_loop-SameBut (bound - vpn) step vpn bound a pages v h

file_page-resize :
    (b : Option (File × ℕ)) (start new_start v : ℕ)
    → start ≤ new_start
    → new_start ≤ v
    → file_page_of
        (if ltb start new_start
          then elim b [
            | none ↦ none
            | some (f, page_offset) ↦ some (f, page_offset + (new_start - start))
          ]
          else b)
        (v - new_start)
      ≡ file_page_of b (v - start)
file_page-resize none start new_start v h k = ground arith
file_page-resize (some (f, page_offset)) start new_start v h k =
    if_cases
      (λ (o : Option (File × ℕ)).
        file_page_of o (v - new_start) ≡ some (f, page_offset + (v - start)))
      (ltb start new_start) (λ _. ap (λ i. some (f, i)) (omega arith))
      (λ e. ap (λ i. some (f, page_offset + i)) (ground arith))

-- A page that is left in an area keeps all that the area said of it, whichever part is cut off.
pub page_of-resize :
    (a a' : MapArea) (new_start new_end v : ℕ)
    → SameBut a v a'
    → a.range_start ≤ new_start
    → new_start ≤ v
    → page_of (resize a' new_start new_end) v ≡ page_of a v
unfolding resize
page_of-resize a a' new_start new_end v (fs, e, g) h k =
    ap (λ (m : MapArea). page_of (resize m new_start new_end) v) e
    ∙ ap₂
        (λ (o : Option (File × ℕ)) (f : Option ℕ). record (page_of a v) {
          file_page = o;
          frame = f;
        })
        (file_page-resize a.backing_file a.range_start new_start v h k) g

file_page-clone :
    (b : Option (File × ℕ)) (start new_start v : ℕ)
    → start ≤ new_start
    → new_start ≤ v
    → file_page_of
        (elim b [ none ↦ none | some (f, page_offset) ↦ some (f, page_offset + new_start - start) ])
        (v - new_start)
      ≡ file_page_of b (v - start)
file_page-clone none start new_start v h k = refl
file_page-clone (some (f, page_offset)) start new_start v h k = ap (λ i. some (f, i)) (omega arith)

-- So does a page of the new area behind the cut.
pub page_of-clone :
    (a a' : MapArea) (new_start new_end v : ℕ)
    → SameBut a v a'
    → a.range_start ≤ new_start
    → new_start ≤ v
    → page_of
        (record (clone_meta_with_new_range a' new_start new_end) {
          data_frames = split_high a'.data_frames new_start;
        })
        v
      ≡ page_of a v
unfolding clone_meta_with_new_range
page_of-clone a a' new_start new_end v (fs, e, g) h k =
    ap
      (λ (m : MapArea).
        page_of
          (record (clone_meta_with_new_range m new_start new_end) {
            data_frames = split_high m.data_frames new_start;
          })
          v)
      e
    ∙ ap₂
        (λ (o : Option (File × ℕ)) (f : Option ℕ). record (page_of a v) {
          file_page = o;
          frame = f;
        })
        (file_page-clone a.backing_file a.range_start new_start v h k)
        (get-split_high fs new_start v k ∙ g)

-- The frames below a cut stay with the part in front of it.
pub SameBut-split_low :
    (a a' : MapArea) (k v : ℕ)
    → SameBut a v a'
    → v < k
    → SameBut a v (record a' { data_frames = split_low a'.data_frames k })
SameBut-split_low a a' k v (fs, e, g) h = (
  split_low fs k,
  ap (λ (m : MapArea). record m { data_frames = split_low m.data_frames k }) e,
  get-split_low fs k v h ∙ g,
)

-- The part behind a cut in the middle, whose front part was made shorter before.
pub page_of-right :
    (a a' : MapArea) (mid new_start new_end v : ℕ)
    → SameBut a v a'
    → a.range_start ≤ new_start
    → new_start ≤ v
    → page_of
        (record (clone_meta_with_new_range
          (resize
            (record a' { data_frames = split_low a'.data_frames new_start })
            a.range_start
            mid)
          new_start
          new_end) { data_frames = split_high a'.data_frames new_start })
        v
      ≡ page_of a v
unfolding clone_meta_with_new_range resize
page_of-right a a' mid new_start new_end v (fs, e, g) h k =
    ap
      (λ (m : MapArea).
        page_of
          (record (clone_meta_with_new_range
            (resize (record m { data_frames = split_low m.data_frames new_start }) a.range_start
              mid)
            new_start new_end) { data_frames = split_high m.data_frames new_start })
          v)
      e
    ∙ ap
        (λ (b : Bool).
          page_of
            (record (clone_meta_with_new_range
              (record a {
                backing_file =
                    if b
                    then elim a.backing_file [
                      | none ↦ none
                      | some (f, page_offset) ↦
                          some (f, page_offset + (a.range_start - a.range_start))
                    ]
                    else a.backing_file;
              })
              new_start new_end) { data_frames = split_high fs new_start })
            v)
        not_below
    ∙ page_of-clone a (record a { data_frames = fs }) new_start new_end v (fs, refl, g) h k
  where
    not_below : ltb a.range_start a.range_start ≡ false
    not_below = ground arith
