-- ===== src/Mm/View/Entries.antt =====
-- What `munmap_locked` of os/src/mm/memory_set.rs does to the page table.
use os.Base.{
  ℕ, zero, suc, ◌+◌, ◌-◌, ◌≤◌, ◌≡◌, ◌≢◌, refl, ◌∙◌, ap, Bool, true, false, not, ◌&&◌, ◌||◌, Option,
  none, some, List, ltb, ◌==◌, if◌then◌else◌, arith, option_split, Bool-cases, inl, inr, ℕ_discrete,
}
use os.Mm.Address.{range_contains}
use os.Mm.Table.{get}
use os.Mm.Area.{
  MapType, framed, file, identical, windowed, borrowed_kernel, guard, MapArea, Pages, has_entry,
  empty_pte, unmap_one, unmap_one_as, unmap_frame, push_released, unmap_loop,
}
use os.Mm.View.Cuts.{get-remove_ne}

abbrev pub holds_frames : MapType → Bool
holds_frames framed = true
holds_frames file = true
holds_frames _ = false

-- The areas of a user: with frames of their own, or a guard.
abbrev pub is_user : MapType → Bool
is_user framed = true
is_user file = true
is_user guard = true
is_user _ = false

abbrev pub is_some {ℓ} : {A : Type ℓ} → Option A → Bool
is_some none = false
is_some (some _) = true

-- The area has a frame at the page.
abbrev pub backed_as : MapType → List (ℕ × ℕ) → ℕ → Bool
backed_as t frames v = holds_frames t && is_some (get frames v)

abbrev pub backed : MapArea → ℕ → Bool
backed a v = backed_as a.map_type a.data_frames v

-- No panic, and the entries of just the pages `gone` were cleared.
abbrev pub Clears : (ℕ → Bool) → Pages → Pages → Type 0
Clears gone pages pages' =
    (pages'.panicked ≡ pages.panicked)
    × ((v : ℕ) → pages'.page_table v ≡ (if gone v then some empty_pte else pages.page_table v))

table-push_released :
    (o : Option ℕ) (pages : Pages) (v : ℕ)
    → (push_released o pages).page_table v ≡ pages.page_table v
table-push_released none pages v = refl
table-push_released (some f) pages v = refl

abbrev OneStep : MapType → MapArea → Pages → ℕ → Option ℕ × (MapArea × Pages) → Type 0
OneStep t a pages vpn r =
    Clears (λ v. (v == vpn) && backed_as t a.data_frames vpn) pages (push_released r.0 r.1.1)
    × ((v : ℕ) → v ≢ vpn → get r.1.0.data_frames v ≡ get a.data_frames v)
    × (r.1.0.map_type ≡ a.map_type)

unmap_frame-OneStep :
    (t : MapType) (a : MapArea) (pages : Pages) (vpn : ℕ)
    → holds_frames t ≡ true
    → not (backed_as t a.data_frames vpn) || has_entry (pages.page_table vpn) ≡ true
    → OneStep t a pages vpn (unmap_frame a pages vpn)
unmap_frame-OneStep t a pages vpn h ready =
    option_split (OneStep t a pages vpn) (get a.data_frames vpn)
      (λ e. ((refl, λ v. ground (arith, e)), λ v ne. refl, refl))
      (λ f e. (
        (ground (arith, h, e, ready), λ v. ground (arith, h, e)),
        λ v ne. get-remove_ne a.data_frames vpn v ne,
        refl,
      ))

unmap_one-OneStep :
    (t : MapType) (a : MapArea) (pages : Pages) (vpn : ℕ)
    → is_user t ≡ true
    → not (backed_as t a.data_frames vpn) || has_entry (pages.page_table vpn) ≡ true
    → OneStep t a pages vpn (unmap_one_as t a pages vpn)
unmap_one-OneStep framed a pages vpn u ready = unmap_frame-OneStep framed a pages vpn refl ready
unmap_one-OneStep file a pages vpn u ready = unmap_frame-OneStep file a pages vpn refl ready
unmap_one-OneStep guard a pages vpn u ready = ((refl, λ v. ground arith), λ v ne. refl, refl)
unmap_one-OneStep identical a pages vpn u ready = absurd cc
unmap_one-OneStep windowed a pages vpn u ready = absurd cc
unmap_one-OneStep borrowed_kernel a pages vpn u ready = absurd cc

-- The loops over pages of the small size.
pub unmap_loop-Clears :
    (fuel vpn bound : ℕ) (a : MapArea) (pages : Pages)
    → is_user a.map_type ≡ true
    → bound - vpn ≤ fuel
    → ((v : ℕ)
        → not (range_contains vpn bound v && backed a v) || has_entry (pages.page_table v) ≡ true)
    → Clears
        (λ v. range_contains vpn bound v && backed a v)
        pages
        (unmap_loop fuel 1 vpn bound a pages).1
unfolding unmap_loop unmap_one
unmap_loop-Clears zero vpn bound a pages u enough ready = (refl, λ v. ground arith)
unmap_loop-Clears (suc fuel) vpn bound a pages u enough ready = elim (Bool-cases (ltb vpn bound)) [
  | inr e ↦ rw (e, unmap_loop) (refl, λ v. ground arith)
  | inl e ↦
      let r = unmap_one a pages vpn in
      let pages' : Pages = push_released r.0 r.1.1 in
      let here : not (backed a vpn) || has_entry (pages.page_table vpn) ≡ true =
        ground (arith, ready vpn) in
      let ((runs, table), frames, kind) = unmap_one-OneStep a.map_type a pages vpn u here in
      let kept : (v : ℕ) → v ≢ vpn → backed r.1.0 v ≡ backed a v =
        λ v ne. rw (kind, frames v ne) refl in
      let (runs', table') =
        unmap_loop-Clears fuel (vpn + 1) bound r.1.0 pages' (ap is_user kind ∙ u) (omega arith)
          (λ v. elim (ℕ_discrete v vpn) [
            | yes p ↦ ground (arith, p)
            | no ne ↦ ground (arith, kept v ne, table v, ready v)
          ]) in
      rw (e, unmap_loop)
        (
          runs' ∙ runs,
          λ v. elim (ℕ_discrete v vpn) [
            | yes p ↦ table' v ∙ ground (arith, p, table v)
            | no ne ↦ table' v ∙ ground (arith, kept v ne, table v)
          ],
        )
]
