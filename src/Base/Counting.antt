-- ===== src/Base/Counting.antt =====
-- How often a number stands in a list: the multiset view in which the allocators are specified.
use Prim.Native.Nat.{ℕ, ◌+◌, ◌<◌}
use mathlib.Core.Path.{◌≡◌, refl}
use mathlib.Core.Bool.{Bool, true, false, ◌&&◌, ◌||◌}
use mathlib.Core.List.{List, [], ◌∷◌, ◌++◌}
use native.Mathlib.Omega.{arith}
use os.Base.Tests.{◌==◌, ltb, leb, if◌then◌else◌}

unfoldable pub count : ℕ → List ℕ → ℕ
count a [] = 0
count a (x ∷ xs) = (if a == x then 1 else 0) + count a xs

-- `iter().any(|i| *i == id)`, `contains`
unfoldable pub contains : List ℕ → ℕ → Bool
contains [] a = false
contains (x ∷ xs) a = x == a || contains xs a

pub contains-count : (xs : List ℕ) (a : ℕ) → contains xs a ≡ true → 0 < count a xs
unfolding contains count
contains-count [] a h = absurd (ground arith)
contains-count (x ∷ xs) a h = ground (arith, contains-count xs a)

pub count-contains : (xs : List ℕ) (a : ℕ) → contains xs a ≡ false → count a xs ≡ 0
unfolding contains count
count-contains [] a h = refl
count-contains (x ∷ xs) a h = ground (arith, count-contains xs a)

pub count-append : (a : ℕ) (xs ys : List ℕ) → count a (xs ++ ys) ≡ count a xs + count a ys
unfolding count
count-append a [] ys = omega arith
count-append a (x ∷ xs) ys = omega (arith, count-append a xs ys)

-- 1 for a number of [lo, hi), else 0
abbrev pub within : ℕ → ℕ → ℕ → ℕ
within lo hi i = if leb lo i && ltb i hi then 1 else 0

-- How many of the blocks of `size` pages at the bases `bs` hold page `p`.
unfoldable pub covers : ℕ → ℕ → List ℕ → ℕ
covers size p [] = 0
covers size p (b ∷ bs) = within b (b + size) p + covers size p bs

pub contains-covers :
    (size : ℕ) (bs : List ℕ) (b : ℕ) → 0 < size → contains bs b ≡ true → 0 < covers size b bs
unfolding contains covers
contains-covers size [] b h e = absurd (ground arith)
contains-covers size (x ∷ bs) b h e = ground (arith, contains-covers size bs b h)
