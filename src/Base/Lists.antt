-- ===== src/Base/Lists.antt =====
-- Lists measured and indexed by native numbers, under the library's names, and slices of them.
use Prim.Native.Nat.{ℕ, zero, suc, ◌+◌, ◌-◌, ◌<◌, min}
use mathlib.Core.Path.{◌≡◌, refl, ap}
use mathlib.Core.Logic.{◌≢◌, ◌⊎◌, inl, inr}
use mathlib.Core.List.{List, [], ◌∷◌, ◌++◌}
use mathlib.Core.Option.{Option, none, some}
use native.Mathlib.Omega.{arith}

module _ {ℓ} {A : Type ℓ} where
  abbrev pub length : List A → ℕ
  length [] = 0
  length (x ∷ xs) = suc (length xs)

  abbrev pub get_elem? : List A → ℕ → Option A
  get_elem? [] i = none
  get_elem? (x ∷ xs) zero = some x
  get_elem? (x ∷ xs) (suc i) = get_elem? xs i

  abbrev pub get_or : List A → ℕ → A → A
  get_or [] i d = d
  get_or (x ∷ xs) zero d = x
  get_or (x ∷ xs) (suc i) d = get_or xs i d

  -- A write out of bounds changes nothing.
  abbrev pub set : List A → ℕ → A → List A
  set [] i v = []
  set (x ∷ xs) zero v = v ∷ xs
  set (x ∷ xs) (suc i) v = x ∷ set xs i v

  unfoldable pub take : ℕ → List A → List A
  take zero xs = []
  take (suc n) [] = []
  take (suc n) (x ∷ xs) = x ∷ take n xs

  unfoldable pub drop : ℕ → List A → List A
  drop zero xs = xs
  drop (suc n) [] = []
  drop (suc n) (x ∷ xs) = drop n xs

  unfoldable pub replicate : ℕ → A → List A
  replicate zero a = []
  replicate (suc n) a = a ∷ replicate n a

  -- The vector without its element `i`.
  unfoldable pub remove_at : List A → ℕ → List A
  remove_at [] i = []
  remove_at (x ∷ xs) zero = xs
  remove_at (x ∷ xs) (suc i) = x ∷ remove_at xs i

  pub length-append : (xs ys : List A) → length (xs ++ ys) ≡ length xs + length ys
  length-append [] ys = omega arith
  length-append (x ∷ xs) ys = omega (arith, length-append xs ys)

  pub length-set : (xs : List A) (i : ℕ) (v : A) → length (set xs i v) ≡ length xs
  length-set [] i v = refl
  length-set (x ∷ xs) zero v = refl
  length-set (x ∷ xs) (suc i) v = ap suc (length-set xs i v)

  pub length-take : (n : ℕ) (xs : List A) → length (take n xs) ≡ min n (length xs)
  unfolding take
  length-take zero xs = omega arith
  length-take (suc n) [] = omega arith
  length-take (suc n) (x ∷ xs) = omega (arith, length-take n xs)

  pub length-drop : (n : ℕ) (xs : List A) → length (drop n xs) ≡ length xs - n
  unfolding drop
  length-drop zero xs = omega arith
  length-drop (suc n) [] = omega arith
  length-drop (suc n) (x ∷ xs) = omega (arith, length-drop n xs)

  pub length-replicate : (n : ℕ) (a : A) → length (replicate n a) ≡ n
  unfolding replicate
  length-replicate zero a = refl
  length-replicate (suc n) a = ap suc (length-replicate n a)

  pub take-append-drop : (n : ℕ) (xs : List A) → take n xs ++ drop n xs ≡ xs
  unfolding take drop
  take-append-drop zero xs = refl
  take-append-drop (suc n) [] = refl
  take-append-drop (suc n) (x ∷ xs) = ap (λ t. x ∷ t) (take-append-drop n xs)

  pub get_or-set_self :
      (xs : List A) (i : ℕ) (v d : A) → i < length xs → get_or (set xs i v) i d ≡ v
  get_or-set_self [] i v d h = absurd (omega arith)
  get_or-set_self (x ∷ xs) zero v d h = refl
  get_or-set_self (x ∷ xs) (suc i) v d h = get_or-set_self xs i v d (omega arith)

  pub get_or-set_ne :
      (xs : List A) (i j : ℕ) (v d : A) → i ≢ j → get_or (set xs i v) j d ≡ get_or xs j d
  get_or-set_ne [] i j v d h = refl
  get_or-set_ne (x ∷ xs) zero zero v d h = absurd (h refl)
  get_or-set_ne (x ∷ xs) zero (suc j) v d h = refl
  get_or-set_ne (x ∷ xs) (suc i) zero v d h = refl
  get_or-set_ne (x ∷ xs) (suc i) (suc j) v d h = get_or-set_ne xs i j v d (λ e. h (ap suc e))

module _ {ℓ} {A : Type ℓ} where
  pub get_or-replicate : (n i : ℕ) (d : A) → get_or (replicate n d) i d ≡ d
  unfolding replicate
  get_or-replicate zero i d = refl
  get_or-replicate (suc n) zero d = refl
  get_or-replicate (suc n) (suc i) d = get_or-replicate n i d

  pub get_or-replicate_cases :
      (n i : ℕ) (x d : A) → (get_or (replicate n x) i d ≡ x) ⊎ (get_or (replicate n x) i d ≡ d)
  unfolding replicate
  get_or-replicate_cases zero i x d = inr refl
  get_or-replicate_cases (suc n) zero x d = inl refl
  get_or-replicate_cases (suc n) (suc i) x d = get_or-replicate_cases n i x d

  -- Taking the element at `i` out of a list, and what stands before it.
  pub get_elem?-split :
      (xs : List A) (i : ℕ)
      → i < length xs
      → (before : List A) × (x : A) × (after : List A) × (xs ≡ before ++ (x ∷ after))
        × (get_elem? xs i ≡ some x)
        × (remove_at xs i ≡ before ++ after)
        × (length before ≡ i)
  unfolding remove_at
  get_elem?-split [] i h = absurd (omega arith)
  get_elem?-split (x ∷ xs) zero h = ([], x, xs, refl, refl, refl, refl)
  get_elem?-split (x ∷ xs) (suc i) h =
      let (before, y, after, e, f, g, l) = get_elem?-split xs i (omega arith) in
      (x ∷ before, y, after, ap (λ t. x ∷ t) e, f, ap (λ t. x ∷ t) g, ap suc l)

  pub get_elem?-middle :
      (xs : List A) (x : A) (ys : List A) → get_elem? (xs ++ (x ∷ ys)) (length xs) ≡ some x
  get_elem?-middle [] x ys = refl
  get_elem?-middle (y ∷ xs) x ys = get_elem?-middle xs x ys

  pub remove_at-middle :
      (xs : List A) (x : A) (ys : List A) → remove_at (xs ++ (x ∷ ys)) (length xs) ≡ xs ++ ys
  unfolding remove_at
  remove_at-middle [] x ys = refl
  remove_at-middle (y ∷ xs) x ys = ap (λ t. y ∷ t) (remove_at-middle xs x ys)

  pub get_elem?-set_found :
      (xs : List A) (i : ℕ) (v : A) {x : A}
      → get_elem? xs i ≡ some x
      → get_elem? (set xs i v) i ≡ some v
  get_elem?-set_found [] i v e = cc
  get_elem?-set_found (y ∷ xs) zero v e = refl
  get_elem?-set_found (y ∷ xs) (suc i) v e = get_elem?-set_found xs i v e

  pub get_elem?-set_ne :
      (xs : List A) (i j : ℕ) (v : A) → i ≢ j → get_elem? (set xs i v) j ≡ get_elem? xs j
  get_elem?-set_ne [] i j v h = refl
  get_elem?-set_ne (x ∷ xs) zero zero v h = absurd (h refl)
  get_elem?-set_ne (x ∷ xs) zero (suc j) v h = refl
  get_elem?-set_ne (x ∷ xs) (suc i) zero v h = refl
  get_elem?-set_ne (x ∷ xs) (suc i) (suc j) v h = get_elem?-set_ne xs i j v (λ e. h (ap suc e))

  pub set_twice : (xs : List A) (i : ℕ) (u v : A) → set (set xs i u) i v ≡ set xs i v
  set_twice [] i u v = refl
  set_twice (x ∷ xs) zero u v = refl
  set_twice (x ∷ xs) (suc i) u v = ap (λ t. x ∷ t) (set_twice xs i u v)
