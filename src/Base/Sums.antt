-- ===== src/Base/Sums.antt =====
-- Sums over a list, one summand for each element: how many threads stand somewhere.
use Prim.Native.Nat.{ℕ, zero, suc, ◌+◌, ◌≤◌}
use mathlib.Core.Path.{◌≡◌, refl, ap}
use mathlib.Core.Logic.{◌≢◌}
use mathlib.Core.List.{List, [], ◌∷◌, ◌++◌}
use mathlib.Core.Option.{some}
use native.Mathlib.Omega.{arith}
use os.Base.Tests.{some_eq}
use os.Base.Lists.{get_elem?, set, replicate}

module _ {ℓ} {A : Type ℓ} where
  unfoldable pub total : (A → ℕ) → List A → ℕ
  total f [] = 0
  total f (p ∷ ps) = f p + total f ps

  pub total-set :
      (f : A → ℕ) (ps : List A) (i : ℕ) {p : A} (p' : A)
      → get_elem? ps i ≡ some p
      → total f (set ps i p') + f p ≡ total f ps + f p'
  unfolding total
  total-set f [] i p' e = cc
  total-set f (q ∷ ps) zero p' e = ground (arith, ap f (some_eq e))
  total-set f (q ∷ ps) (suc i) p' e = omega (arith, total-set f ps i p' e)

  pub total-replicate : (f : A → ℕ) (n : ℕ) (a : A) → f a ≡ 0 → total f (replicate n a) ≡ 0
  unfolding total replicate
  total-replicate f zero a h = refl
  total-replicate f (suc n) a h = omega (arith, h, total-replicate f n a h)

  pub total-append : (f : A → ℕ) (ps qs : List A) → total f (ps ++ qs) ≡ total f ps + total f qs
  unfolding total
  total-append f [] qs = omega arith
  total-append f (p ∷ ps) qs = omega (arith, total-append f ps qs)

  pub total-le :
      (f : A → ℕ) (ps : List A) (i : ℕ) {p : A} → get_elem? ps i ≡ some p → f p ≤ total f ps
  unfolding total
  total-le f [] i e = cc
  total-le f (q ∷ ps) zero e = omega (arith, ap f (some_eq e))
  total-le f (q ∷ ps) (suc i) e = omega (arith, total-le f ps i e)

  -- Two elements count twice.
  pub total-two :
      (f : A → ℕ) (ps : List A) (i j : ℕ) {p q : A}
      → i ≢ j
      → get_elem? ps i ≡ some p
      → get_elem? ps j ≡ some q
      → f p + f q ≤ total f ps
  unfolding total
  total-two f [] i j ne e g = cc
  total-two f (x ∷ ps) zero zero ne e g = absurd (ne refl)
  total-two f (x ∷ ps) zero (suc j) ne e g = omega (arith, ap f (some_eq e), total-le f ps j g)
  total-two f (x ∷ ps) (suc i) zero ne e g = omega (arith, ap f (some_eq g), total-le f ps i e)
  total-two f (x ∷ ps) (suc i) (suc j) ne e g =
      omega (arith, total-two f ps i j (λ k. ne (ap suc k)) e g)
