-- ===== src/Mm/Protect/Isolated.antt =====
-- What the checks and the splits of `mprotect` and `mlock_range` of os/src/mm/memory_set.rs leave.
use os.Base.{
  ℕ, ◌<◌, ◌≡◌, ◌⊎◌, inl, inr, refl, ◌∙◌, sym, ap, Bool, false, List, [], ◌∷◌, ltb, if◌then◌else◌,
  arith, if_cases, Bool-cases,
}
use mathlib.Core.Path.{subst}
use os.Mm.Address.{range_contains}
use os.Mm.Area.{MapArea}
use os.Mm.Space.{Result, ok, err, enomem}
use os.Mm.Mmap.Placed.{OnOk, ok-OnOk}
use os.Mm.Protect.{affected, check_areas, last_key, split_area_at, split_ends, isolate}
use os.Mm.Protect.Split.{Only, Clear, cut, split_area_at-cut}
use os.Mm.Protect.Cut.{cut-Laid, cut-Below, page_at-cut, cut-Clear, cut-Clear_other, cut-Only}
use os.Mm.Protect.Keys.{MappedAt, affected-last, affected-first, affected-MappedAt}
use os.Mm.View.{page_at, Laid, Below}

-- Areas that no end of the range cuts, with the pages that there were.
pub record Isolated (es : List (ℕ × MapArea)) (s t : ℕ) (es' : List (ℕ × MapArea)) : Type 0 where
  pub order : Laid 0 es'
  pub ends : Below es'
  pub clear_s : Clear s es'
  pub clear_t : Clear t es'
  pub pages : (v : ℕ) → page_at es' v ≡ page_at es v

on_ok : {A : Type 0} {P : A → Type 0} (r : Result A) → ((x : A) → r ≡ ok x → P x) → OnOk P r
on_ok (ok x) f = f x refl
on_ok (err e) f = tt

module _ (es : List (ℕ × MapArea)) (s t : ℕ) (h : s < t) (l : Laid 0 es) (b : Below es) where
  cuts-Isolated : Isolated es s t (cut (cut es t) s)
  cuts-Isolated = record {
    order = cut-Laid 0 s (cut es t) (cut-Laid 0 t es l);
    ends = cut-Below 0 s (cut es t) (cut-Laid 0 t es l) (cut-Below 0 t es l b);
    clear_s = cut-Clear 0 s (cut es t) (cut-Laid 0 t es l);
    clear_t = cut-Clear_other t s (cut es t) (cut-Clear 0 t es l);
    pages = λ v. page_at-cut s v (cut es t) ∙ page_at-cut t v es;
  }

  second_split :
      (key : ℕ) (r : Result (List (ℕ × MapArea)))
      → OnOk (λ x. x ≡ cut es t) r
      → Only key s es
      → OnOk (Isolated es s t) (elim r [ err e ↦ err e | ok areas' ↦ split_area_at areas' key s ])
  second_split key (err e) p o = tt
  second_split key (ok areas) p o = on_ok (split_area_at areas key s) (λ x e.
      subst (Isolated es s t)
        (sym (
          split_area_at-cut 0 key s (cut es t) x (cut-Laid 0 t es l)
            (cut-Only key s t es (omega arith) o) (sym (ap (λ y. split_area_at y key s) p) ∙ e)))
        cuts-Isolated)

  split_ends-Isolated :
      (hit : List (ℕ × MapArea))
      → affected es s t ≡ hit
      → OnOk (Isolated es s t) (split_ends es s t hit)
  unfolding split_ends
  split_ends-Isolated [] e = tt
  split_ends-Isolated (x ∷ more) e =
      second_split x.0 (split_area_at es (last_key x.0 more) t)
        (on_ok (split_area_at es (last_key x.0 more) t) (λ y f.
          split_area_at-cut 0 (last_key x.0 more) t es y l (affected-last 0 s t es x more l e) f))
        (affected-first 0 s t es x more l h e)

  -- When the checks pass, every page of the range is in an area.
  abbrev pub Checked : List (ℕ × MapArea) → Type 0
  Checked es' = Isolated es s t es' × ((v : ℕ) → (range_contains s t v ≡ false) ⊎ MappedAt es v)

  pub isolate-Checked : (write : Bool) → OnOk Checked (isolate es s t write)
  unfolding isolate
  isolate-Checked write = from (check_areas s t write s (affected es s t)) refl
    where
      from :
          (r : Result ℕ)
          → check_areas s t write s (affected es s t) ≡ r
          → OnOk Checked (elim r [
            | err e ↦ err e
            | ok covered_until ↦
                if ltb covered_until t then err enomem else split_ends es s t (affected es s t)
          ])
      from (err e) p = tt
      from (ok c) p =
          if_cases (OnOk Checked) (ltb c t) (λ _. tt)
            (λ far. on_ok (split_ends es s t (affected es s t)) (λ x e. (
              ok-OnOk (Isolated es s t) (split_ends es s t (affected es s t)) x
                  (split_ends-Isolated (affected es s t) refl) e,
              λ v. elim (Bool-cases (range_contains s t v)) [
                | inl i ↦ inr (
                    affected-MappedAt s t write es c v p (ground (arith, i))
                      (ground (arith, i, far)))
                | inr i ↦ inl i
              ],
            )))
