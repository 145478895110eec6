-- ===== src/Base/Slices.antt =====
-- Ranges of a buffer, and the writes that fit in one (`copy_from_slice`).
use Prim.Native.Nat.{ℕ, zero, suc, ◌+◌, ◌≤◌, ◌<◌}
use mathlib.Core.Path.{◌≡◌, refl, ap}
use mathlib.Core.Logic.{◌⊎◌, inl, inr}
use mathlib.Core.List.{List, [], ◌∷◌, ◌++◌}
use native.Mathlib.Omega.{arith}
use os.Base.Lists.{length, get_or}

module _ {ℓ} {A : Type ℓ} where
  -- The `n` elements from index `a` on, fewer at the end of the buffer.
  unfoldable pub slice : List A → ℕ → ℕ → List A
  slice [] a n = []
  slice (x ∷ xs) zero zero = []
  slice (x ∷ xs) zero (suc n) = x ∷ slice xs zero n
  slice (x ∷ xs) (suc a) n = slice xs a n

  -- The buffer with `ys` written over it from index `a` on; what passes the end is dropped.
  unfoldable pub write_at : List A → ℕ → List A → List A
  write_at [] a ys = []
  write_at (x ∷ xs) zero [] = x ∷ xs
  write_at (x ∷ xs) zero (y ∷ ys) = y ∷ write_at xs zero ys
  write_at (x ∷ xs) (suc a) ys = x ∷ write_at xs a ys

  pub length-write_at : (xs : List A) (a : ℕ) (ys : List A) → length (write_at xs a ys) ≡ length xs
  unfolding write_at
  length-write_at [] a ys = refl
  length-write_at (x ∷ xs) zero [] = refl
  length-write_at (x ∷ xs) zero (y ∷ ys) = ap suc (length-write_at xs zero ys)
  length-write_at (x ∷ xs) (suc a) ys = ap suc (length-write_at xs a ys)

  pub slice-zero : (xs : List A) (a : ℕ) → slice xs a 0 ≡ []
  unfolding slice
  slice-zero [] a = refl
  slice-zero (x ∷ xs) zero = refl
  slice-zero (x ∷ xs) (suc a) = slice-zero xs a

  pub slice-length : (xs : List A) → slice xs 0 (length xs) ≡ xs
  unfolding slice
  slice-length [] = refl
  slice-length (x ∷ xs) = ap (λ t. x ∷ t) (slice-length xs)

  pub slice_add :
      (xs : List A) (a m n : ℕ) → slice xs a (m + n) ≡ slice xs a m ++ slice xs (a + m) n
  unfolding slice
  slice_add [] a m n = refl
  slice_add (x ∷ xs) zero zero n = let same : 0 + n ≡ n = omega arith in ap (slice (x ∷ xs) 0) same
  slice_add (x ∷ xs) zero (suc m) n =
      let first : suc m + n ≡ suc (m + n) = omega arith in
      let next : 0 + suc m ≡ suc m = omega arith in
      let here : 0 + m ≡ m = omega arith in
      rw (first, next) (ap (λ t. x ∷ t) (rw here at (slice_add xs zero m n)))
  slice_add (x ∷ xs) (suc a) m n =
      let next : suc a + m ≡ suc (a + m) = omega arith in rw next (slice_add xs a m n)

  -- A write does not change what lies before it, or what lies after it.
  pub slice-write_at_before :
      (xs : List A) (off : ℕ) (ys : List A) (a n : ℕ)
      → a + n ≤ off
      → slice (write_at xs off ys) a n ≡ slice xs a n
  unfolding slice write_at
  slice-write_at_before [] off ys a n h = refl
  slice-write_at_before (x ∷ xs) zero [] a n h = refl
  slice-write_at_before (x ∷ xs) zero (y ∷ ys) zero zero h = refl
  slice-write_at_before (x ∷ xs) zero (y ∷ ys) zero (suc n) h = absurd (omega arith)
  slice-write_at_before (x ∷ xs) zero (y ∷ ys) (suc a) n h = absurd (omega arith)
  slice-write_at_before (x ∷ xs) (suc off) ys zero zero h = refl
  slice-write_at_before (x ∷ xs) (suc off) ys zero (suc n) h =
      ap (λ t. x ∷ t) (slice-write_at_before xs off ys zero n (omega arith))
  slice-write_at_before (x ∷ xs) (suc off) ys (suc a) n h =
      slice-write_at_before xs off ys a n (omega arith)

  pub slice-write_at_after :
      (xs : List A) (off : ℕ) (ys : List A) (a n : ℕ)
      → off + length ys ≤ a
      → slice (write_at xs off ys) a n ≡ slice xs a n
  unfolding slice write_at
  slice-write_at_after [] off ys a n h = refl
  slice-write_at_after (x ∷ xs) zero [] a n h = refl
  slice-write_at_after (x ∷ xs) zero (y ∷ ys) zero n h = absurd (omega arith)
  slice-write_at_after (x ∷ xs) zero (y ∷ ys) (suc a) n h =
      slice-write_at_after xs zero ys a n (omega arith)
  slice-write_at_after (x ∷ xs) (suc off) ys zero n h = absurd (omega arith)
  slice-write_at_after (x ∷ xs) (suc off) ys (suc a) n h =
      slice-write_at_after xs off ys a n (omega arith)

  -- What was written is read back.
  pub slice-write_at_self :
      (xs : List A) (off : ℕ) (ys : List A)
      → off + length ys ≤ length xs
      → slice (write_at xs off ys) off (length ys) ≡ ys
  unfolding slice write_at
  slice-write_at_self [] off [] h = refl
  slice-write_at_self [] off (y ∷ ys) h = absurd (omega arith)
  slice-write_at_self (x ∷ xs) zero [] h = refl
  slice-write_at_self (x ∷ xs) zero (y ∷ ys) h =
      ap (λ t. y ∷ t) (slice-write_at_self xs zero ys (omega arith))
  slice-write_at_self (x ∷ xs) (suc off) ys h = slice-write_at_self xs off ys (omega arith)

  pub get_or-write_at_ne :
      (xs : List A) (off : ℕ) (ys : List A) (i : ℕ) (d : A)
      → (i < off) ⊎ (off + length ys ≤ i)
      → get_or (write_at xs off ys) i d ≡ get_or xs i d
  unfolding write_at
  get_or-write_at_ne [] off ys i d h = refl
  get_or-write_at_ne (x ∷ xs) zero [] i d h = refl
  get_or-write_at_ne (x ∷ xs) zero (y ∷ ys) zero d (inl h) = absurd (omega arith)
  get_or-write_at_ne (x ∷ xs) zero (y ∷ ys) zero d (inr h) = absurd (omega arith)
  get_or-write_at_ne (x ∷ xs) zero (y ∷ ys) (suc i) d (inl h) = absurd (omega arith)
  get_or-write_at_ne (x ∷ xs) zero (y ∷ ys) (suc i) d (inr h) =
      get_or-write_at_ne xs zero ys i d (inr (omega arith))
  get_or-write_at_ne (x ∷ xs) (suc off) ys zero d h = refl
  get_or-write_at_ne (x ∷ xs) (suc off) ys (suc i) d (inl h) =
      get_or-write_at_ne xs off ys i d (inl (omega arith))
  get_or-write_at_ne (x ∷ xs) (suc off) ys (suc i) d (inr h) =
      get_or-write_at_ne xs off ys i d (inr (omega arith))

  -- A write of the same width hides the one before it; writes side by side may change places.
  pub write_at_twice :
      (xs : List A) (a : ℕ) (ys zs : List A)
      → length ys ≡ length zs
      → write_at (write_at xs a ys) a zs ≡ write_at xs a zs
  unfolding write_at
  write_at_twice [] a ys zs h = refl
  write_at_twice (x ∷ xs) zero [] [] h = refl
  write_at_twice (x ∷ xs) zero [] (z ∷ zs) h = absurd (omega arith)
  write_at_twice (x ∷ xs) zero (y ∷ ys) [] h = absurd (omega arith)
  write_at_twice (x ∷ xs) zero (y ∷ ys) (z ∷ zs) h =
      ap (λ t. z ∷ t) (write_at_twice xs zero ys zs (omega arith))
  write_at_twice (x ∷ xs) (suc a) ys zs h = ap (λ t. x ∷ t) (write_at_twice xs a ys zs h)

  pub write_at_comm :
      (xs : List A) (a : ℕ) (ys : List A) (b : ℕ) (zs : List A)
      → a + length ys ≤ b
      → write_at (write_at xs a ys) b zs ≡ write_at (write_at xs b zs) a ys
  unfolding write_at
  write_at_comm [] a ys b zs h = refl
  write_at_comm (x ∷ xs) zero [] zero [] h = refl
  write_at_comm (x ∷ xs) zero [] zero (z ∷ zs) h = refl
  write_at_comm (x ∷ xs) zero [] (suc b) zs h = refl
  write_at_comm (x ∷ xs) zero (y ∷ ys) zero zs h = absurd (omega arith)
  write_at_comm (x ∷ xs) zero (y ∷ ys) (suc b) zs h =
      ap (λ t. y ∷ t) (write_at_comm xs zero ys b zs (omega arith))
  write_at_comm (x ∷ xs) (suc a) ys zero zs h = absurd (omega arith)
  write_at_comm (x ∷ xs) (suc a) ys (suc b) zs h =
      ap (λ t. x ∷ t) (write_at_comm xs a ys b zs (omega arith))
