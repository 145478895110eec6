-- ===== src/Mm/View/Logs.antt =====
-- What `munmap_locked` of os/src/mm/memory_set.rs releases and writes back.
use os.Base.{
  ℕ, zero, suc, ◌+◌, ◌-◌, ◌≤◌, ◌<◌, ◌≡◌, refl, ◌∙◌, sym, ap, min, max, Bool, true, false, Option,
  none, some, List, [], ◌∷◌, ◌++◌, ltb, if◌then◌else◌, arith, option_split, append-nil,
  append_assoc,
}
use mathlib.Core.Path.{subst, ap₂}
use os.Frames.{page_4k, num_pages}
use os.Mm.Table.{get}
use os.Mm.Area.{
  MapType, framed, file, identical, windowed, borrowed_kernel, guard, File, MapArea, Pages, Pte,
  write_back, unmap_one, unmap_one_as, unmap_frame, push_released, unmap_loop, unmap_pages,
}
use os.Mm.Munmap.{
  Turn, delete_all, split_middle, delete_left_part, delete_right_part, munmap_area, sweep,
}
use os.Mm.View.{Laid}
use os.Mm.View.Pieces.{munmap_area_cases}
use os.Mm.View.Cuts.{SameBut, unmap_one-SameBut}
use os.Mm.View.Entries.{holds_frames, is_user}
use os.Mm.View.Swept.{Resident}

-- What a page with the frame `o` adds: the frame to release, and the page of a shared file.
abbrev pub frame_list : Option ℕ → List ℕ
frame_list none = []
frame_list (some f) = f ∷ []

abbrev pub file_list : Bool → Option (File × ℕ) → ℕ → Option ℕ → List (ℕ × ℕ)
file_list true (some (f, offset)) i (some _) = (f.ino, offset + i) ∷ []
file_list _ _ i _ = []

abbrev pub frames_at : MapArea → ℕ → List ℕ
frames_at a v = if holds_frames a.map_type then frame_list (get a.data_frames v) else []

abbrev pub files_at : MapArea → ℕ → List (ℕ × ℕ)
files_at a v =
    if holds_frames a.map_type
    then file_list a.is_shared a.backing_file (v - a.range_start) (get a.data_frames v)
    else []

-- Over `n` pages from `v` on.
unfoldable pub each {ℓ} : {A : Type ℓ} → (ℕ → List A) → ℕ → ℕ → List A
each g zero v = []
each g (suc n) v = g v ++ each g n (v + 1)

each_ext {ℓ} :
    {A : Type ℓ} (g g' : ℕ → List A) (n lo : ℕ)
    → ((v : ℕ) → lo ≤ v → g v ≡ g' v)
    → each g n lo ≡ each g' n lo
unfolding each
each_ext g g' zero lo same = refl
each_ext g g' (suc n) lo same =
    ap₂ (λ x y. x ++ y) (same lo (omega arith))
      (each_ext g g' n (lo + 1) (λ v h. same v (omega arith)))

-- The new ends of both logs.
abbrev pub Logs : List ℕ → List (ℕ × ℕ) → Pages → Pages → Type 0
Logs frames files pages pages' =
    (pages'.released ≡ pages.released ++ frames)
    × (pages'.written_back ≡ pages.written_back ++ files)

write_back_lem :
    (a : MapArea) (v f : ℕ) (log : List (ℕ × ℕ))
    → write_back a v log ≡ log ++ file_list a.is_shared a.backing_file (v - a.range_start) (some f)
write_back_lem a v f log = go a.is_shared a.backing_file
  where
    go :
        (shared : Bool) (backing : Option (File × ℕ))
        → (if shared
            then elim backing [
              | none ↦ log
              | some (g, base_offset) ↦ log ++ ((g.ino, base_offset + (v - a.range_start)) ∷ [])
            ]
            else log)
          ≡ log ++ file_list shared backing (v - a.range_start) (some f)
    go true none = sym (append-nil log)
    go true (some (g, base_offset)) = refl
    go false none = sym (append-nil log)
    go false (some x) = sym (append-nil log)

file_list-none :
    (shared : Bool) (backing : Option (File × ℕ)) (i : ℕ) → file_list shared backing i none ≡ []
file_list-none true none i = refl
file_list-none true (some x) i = refl
file_list-none false none i = refl
file_list-none false (some x) i = refl

abbrev StepLogs : MapType → MapArea → Pages → ℕ → Option ℕ × (MapArea × Pages) → Type 0
StepLogs t a pages vpn r =
    Logs (if holds_frames t then frame_list (get a.data_frames vpn) else [])
      (if holds_frames t
        then file_list a.is_shared a.backing_file (vpn - a.range_start) (get a.data_frames vpn)
        else [])
      pages (push_released r.0 r.1.1)

unmap_frame-Logs :
    (t : MapType) (a : MapArea) (pages : Pages) (vpn : ℕ)
    → holds_frames t ≡ true
    → StepLogs t a pages vpn (unmap_frame a pages vpn)
unmap_frame-Logs t a pages vpn h =
    option_split (StepLogs t a pages vpn) (get a.data_frames vpn)
      (λ e.
        rw (h, e)
          (
            sym (append-nil pages.released),
            sym (append-nil pages.written_back)
                ∙ ap (λ l. pages.written_back ++ l)
                    (sym (file_list-none a.is_shared a.backing_file (vpn - a.range_start))),
          ))
      (λ f e. rw (h, e) (refl, write_back_lem a vpn f pages.written_back))

unmap_one-Logs :
    (t : MapType) (a : MapArea) (pages : Pages) (vpn : ℕ)
    → is_user t ≡ true
    → StepLogs t a pages vpn (unmap_one_as t a pages vpn)
unmap_one-Logs framed a pages vpn u = unmap_frame-Logs framed a pages vpn refl
unmap_one-Logs file a pages vpn u = unmap_frame-Logs file a pages vpn refl
unmap_one-Logs guard a pages vpn u =
    (sym (append-nil pages.released), sym (append-nil pages.written_back))
unmap_one-Logs identical a pages vpn u = absurd cc
unmap_one-Logs windowed a pages vpn u = absurd cc
unmap_one-Logs borrowed_kernel a pages vpn u = absurd cc

same_at :
    (a a' : MapArea) (v : ℕ)
    → SameBut a v a'
    → (frames_at a' v ≡ frames_at a v) × (files_at a' v ≡ files_at a v)
same_at a a' v (fs, e, g) = (
  ap (λ m. frames_at m v) e ∙ ap (λ o. if holds_frames a.map_type then frame_list o else []) g,
  ap (λ m. files_at m v) e
      ∙ ap
          (λ o.
            if holds_frames a.map_type
            then file_list a.is_shared a.backing_file (v - a.range_start) o
            else [])
          g,
)

unmap_loop-Logs :
    (fuel vpn bound : ℕ) (a : MapArea) (pages : Pages)
    → is_user a.map_type ≡ true
    → bound - vpn ≡ fuel
    → Logs
        (each (frames_at a) fuel vpn)
        (each (files_at a) fuel vpn)
        pages
        (unmap_loop fuel 1 vpn bound a pages).1
unfolding unmap_loop unmap_one each
unmap_loop-Logs zero vpn bound a pages u enough =
    (sym (append-nil pages.released), sym (append-nil pages.written_back))
unmap_loop-Logs (suc fuel) vpn bound a pages u enough =
    let e : ltb vpn bound ≡ true = ground (arith, enough) in
    let r = unmap_one a pages vpn in
    let pages' : Pages = push_released r.0 r.1.1 in
    let (released, written) = unmap_one-Logs a.map_type a pages vpn u in
    let kept : (v : ℕ) → vpn + 1 ≤ v → SameBut a v r.1.0 =
      λ v h. unmap_one-SameBut a.map_type a pages vpn v (λ p. omega (arith, p, h)) in
    let (fs, kind, _) = kept (vpn + 1) (omega arith) in
    let user : is_user r.1.0.map_type ≡ true = ap (λ (m : MapArea). is_user m.map_type) kind ∙ u in
    let (released', written') =
      unmap_loop-Logs fuel (vpn + 1) bound r.1.0 pages' user (omega (arith, enough)) in
    rw (e, unmap_loop)
      (
        released'
            ∙ ap₂ (λ x y. x ++ y) released
                (each_ext (frames_at r.1.0) (frames_at a) fuel (vpn + 1)
                  (λ v h. (same_at a r.1.0 v (kept v h)).0))
            ∙ append_assoc pages.released (frames_at a vpn) (each (frames_at a) fuel (vpn + 1)),
        written'
            ∙ ap₂ (λ x y. x ++ y) written
                (each_ext (files_at r.1.0) (files_at a) fuel (vpn + 1)
                  (λ v h. (same_at a r.1.0 v (kept v h)).1))
            ∙ append_assoc pages.written_back (files_at a vpn) (each (files_at a) fuel (vpn + 1)),
      )

-- Over the pages of an area that lie in the range.
abbrev pub in_area {ℓ} : {A : Type ℓ} → (ℕ → List A) → ℕ → ℕ → MapArea → List A
in_area g s t a = each g (min t a.range_end - max s a.range_start) (max s a.range_start)

-- Over all areas.
unfoldable pub frames_in : ℕ → ℕ → List (ℕ × MapArea) → List ℕ
frames_in s t [] = []
frames_in s t (e ∷ es) = in_area (frames_at e.1) s t e.1 ++ frames_in s t es

unfoldable pub files_in : ℕ → ℕ → List (ℕ × MapArea) → List (ℕ × ℕ)
files_in s t [] = []
files_in s t (e ∷ es) = in_area (files_at e.1) s t e.1 ++ files_in s t es

unmap_pages-Logs :
    (step lo hi s t : ℕ) (a : MapArea) (pages : Pages)
    → step ≡ 1
    → is_user a.map_type ≡ true
    → lo ≡ max s a.range_start
    → hi ≡ min t a.range_end
    → Logs
        (in_area (frames_at a) s t a)
        (in_area (files_at a) s t a)
        pages
        (unmap_pages step lo hi a pages).1
unfolding unmap_pages
unmap_pages-Logs step lo hi s t a pages one u low high =
    let (released, written) = unmap_loop-Logs (hi - lo) lo hi a pages u refl in
    subst
      (λ k.
        Logs (in_area (frames_at a) s t a) (in_area (files_at a) s t a) pages
          (unmap_pages k lo hi a pages).1)
      (sym one)
      (
        released ∙ ap₂ (λ x y. pages.released ++ each (frames_at a) (y - x) x) low high,
        written ∙ ap₂ (λ x y. pages.written_back ++ each (files_at a) (y - x) x) low high,
      )

munmap_area-Logs :
    (s t key : ℕ) (a : MapArea) (pages : Pages)
    → is_user a.map_type ≡ true
    → a.area_page_size ≡ page_4k
    → s ≤ t
    → a.range_start < a.range_end
    → Logs
        (in_area (frames_at a) s t a)
        (in_area (files_at a) s t a)
        pages
        (munmap_area s t key a pages).pages
unfolding delete_all split_middle delete_left_part delete_right_part num_pages each
munmap_area-Logs s t key a pages u small h some_pages =
    let one : num_pages a.area_page_size ≡ 1 = ap num_pages small in
    let P : Turn → Type 0 =
      λ turn. Logs (in_area (frames_at a) s t a) (in_area (files_at a) s t a) pages turn.pages in
    munmap_area_cases P s t key a pages
      (λ x.
        let nothing : min t a.range_end - max s a.range_start ≡ 0 = omega (arith, x) in
        rw nothing (sym (append-nil pages.released), sym (append-nil pages.written_back)))
      (λ x y.
        unmap_pages-Logs (num_pages a.area_page_size) a.range_start a.range_end s t a pages one u
          (omega arith) (omega arith))
      (λ x y. unmap_pages-Logs 1 s t s t a pages refl u (omega arith) (omega arith))
      (λ x y z.
        unmap_pages-Logs (num_pages a.area_page_size) a.range_start t s t a pages one u
          (omega arith) (omega arith))
      (λ x y z.
        unmap_pages-Logs (num_pages a.area_page_size) s a.range_end s t a pages one u (omega arith)
          (omega arith))

pub sweep-Logs :
    (table : ℕ → Option Pte) (s t lo : ℕ) (es : List (ℕ × MapArea)) (pages : Pages)
    → s ≤ t
    → Laid lo es
    → Resident table es
    → Logs (frames_in s t es) (files_in s t es) pages (sweep s t es pages).pages
unfolding sweep frames_in files_in
sweep-Logs table s t lo [] pages h l r =
    (sym (append-nil pages.released), sym (append-nil pages.written_back))
sweep-Logs table s t lo (e ∷ es) pages h (k, above, some_pages, l) (u, small, ready, r) =
    let turn : Turn = munmap_area s t e.0 e.1 pages in
    let (released, written) = munmap_area-Logs s t e.0 e.1 pages u small h some_pages in
    let (released', written') = sweep-Logs table s t e.1.range_end es turn.pages h l r in
    (
      released'
          ∙ ap (λ x. x ++ frames_in s t es) released
          ∙ append_assoc pages.released (in_area (frames_at e.1) s t e.1) (frames_in s t es),
      written'
          ∙ ap (λ x. x ++ files_in s t es) written
          ∙ append_assoc pages.written_back (in_area (files_at e.1) s t e.1) (files_in s t es),
    )
