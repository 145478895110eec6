-- ===== src/Mm/Table.antt =====
-- The `BTreeMap`s of os/src/mm/memory_set.rs as lists of entries in the order of their keys.
use os.Base.{ℕ, List, [], ◌∷◌, ltb, ◌==◌, if◌then◌else◌, Option, none, some}

module _ {ℓ} {A : Type ℓ} where
  unfoldable pub get : List (ℕ × A) → ℕ → Option A
  get [] k = none
  get (e ∷ es) k = if e.0 == k then some e.1 else get es k

  unfoldable pub insert : List (ℕ × A) → ℕ → A → List (ℕ × A)
  insert [] k v = (k, v) ∷ []
  insert (e ∷ es) k v =
      let rest = insert es k v in
      if ltb k e.0 then (k, v) ∷ (e ∷ es) else if e.0 == k then (k, v) ∷ es else e ∷ rest

  unfoldable pub remove : List (ℕ × A) → ℕ → List (ℕ × A)
  remove [] k = []
  remove (e ∷ es) k = let rest = remove es k in if e.0 == k then es else e ∷ rest

  -- The two parts of `split_off`: the entries below the key stay.
  unfoldable pub split_low : List (ℕ × A) → ℕ → List (ℕ × A)
  split_low [] k = []
  split_low (e ∷ es) k = let rest = split_low es k in if ltb e.0 k then e ∷ rest else rest

  unfoldable pub split_high : List (ℕ × A) → ℕ → List (ℕ × A)
  split_high [] k = []
  split_high (e ∷ es) k = let rest = split_high es k in if ltb e.0 k then rest else e ∷ rest
