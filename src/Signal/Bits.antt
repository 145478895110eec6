-- ===== src/Signal/Bits.antt =====
-- Sets of signals of os/src/process/signal/state.rs, bit by bit.
use os.Base.{
  ℕ, zero, suc, ◌+◌, ◌<◌, ◌≤◌, ◌≡◌, ◌≢◌, refl, ap, Bool, true, false, not, ◌&&◌, ◌||◌, some, [],
  ◌∷◌, ◌==◌, get_or, length, length-replicate, length-set, arith, ==_refl, get_or-set_self, sym,
  ◌∙◌, ℕ_discrete, dec_lt, Bool-cases, inl, inr, get_or-set_ne, get_or-replicate,
}
use mathlib.Core.Bool.{true≢false}
use os.Signal.Flags.{
  max_sig, SignalFlags, empty, flag, has, union, without, is_empty, contains_flags, trailing_zeros,
  number_from, number,
}

or_false : (b : Bool) → b ≡ (b || false)
or_false true = refl
or_false false = refl

pub and_true : (b : Bool) → b ≡ (b && true)
and_true true = refl
and_true false = refl

pub eq_ne : {i m : ℕ} → i ≢ m → (i == m) ≡ false
eq_ne h = ground (arith, h)

pub and_false : (b : Bool) → (b && false) ≡ false
and_false true = refl
and_false false = refl

pub has-union : (xs ys : SignalFlags) (i : ℕ) → has (union xs ys) i ≡ (has xs i || has ys i)
unfolding union
has-union [] ys i = refl
has-union (x ∷ xs) [] zero = or_false x
has-union (x ∷ xs) [] (suc i) = or_false (get_or xs i false)
has-union (x ∷ xs) (y ∷ ys) zero = refl
has-union (x ∷ xs) (y ∷ ys) (suc i) = has-union xs ys i

pub has-without :
    (xs ys : SignalFlags) (i : ℕ) → has (without xs ys) i ≡ (has xs i && not (has ys i))
unfolding without
has-without [] ys i = refl
has-without (x ∷ xs) [] zero = and_true x
has-without (x ∷ xs) [] (suc i) = and_true (get_or xs i false)
has-without (x ∷ xs) (y ∷ ys) zero = refl
has-without (x ∷ xs) (y ∷ ys) (suc i) = has-without xs ys i

pub has-empty : (i : ℕ) → has empty i ≡ false
has-empty i = get_or-replicate 64 i false

pub has-flag : (m i : ℕ) → m < max_sig → has (flag m) i ≡ (i == m)
has-flag m i h = elim (ℕ_discrete m i) [
  | yes e ↦ rw e (
      get_or-set_self empty i true false (omega (arith, length-replicate 64 false))
      ∙ sym (==_refl i))
  | no n ↦ get_or-set_ne empty m i true false n ∙ (has-empty i ∙ sym (ground (arith, n)))
]

pub has-is_empty : (xs : SignalFlags) (i : ℕ) → is_empty xs ≡ true → has xs i ≡ false
unfolding is_empty
has-is_empty [] i e = refl
has-is_empty (true ∷ xs) i e = cc
has-is_empty (false ∷ xs) zero e = refl
has-is_empty (false ∷ xs) (suc i) e = has-is_empty xs i e

pub has-trailing_zeros :
    (xs : SignalFlags) → is_empty xs ≡ false → has xs (trailing_zeros xs) ≡ true
unfolding is_empty trailing_zeros
has-trailing_zeros [] e = cc
has-trailing_zeros (true ∷ xs) e = refl
has-trailing_zeros (false ∷ xs) e = has-trailing_zeros xs e

pub has-below_trailing_zeros : (xs : SignalFlags) (i : ℕ) → i < trailing_zeros xs → has xs i ≡ false
unfolding trailing_zeros
has-below_trailing_zeros [] i h = refl
has-below_trailing_zeros (true ∷ xs) i h = absurd (omega arith)
has-below_trailing_zeros (false ∷ xs) zero h = refl
has-below_trailing_zeros (false ∷ xs) (suc i) h = has-below_trailing_zeros xs i (omega arith)

-- A bit that a list of bits has stands in it.
pub has-length : (xs : SignalFlags) (i : ℕ) → has xs i ≡ true → i < length xs
has-length [] i e = absurd (cc)
has-length (x ∷ xs) zero e = omega arith
has-length (x ∷ xs) (suc i) e = omega (arith, has-length xs i e)

pub is_empty-all_false : (xs : SignalFlags) → ((i : ℕ) → has xs i ≡ false) → is_empty xs ≡ true
unfolding is_empty
is_empty-all_false [] h = refl
is_empty-all_false (true ∷ xs) h = absurd (true≢false (h 0))
is_empty-all_false (false ∷ xs) h = is_empty-all_false xs (λ i. h (suc i))

pub contains_flags-flag :
    (xs : SignalFlags) (m : ℕ) → m < max_sig → contains_flags xs (flag m) ≡ has xs m
unfolding contains_flags
contains_flags-flag xs m h = elim (Bool-cases (has xs m)) [
  | inl e ↦
      is_empty-all_false (without (flag m) xs) (λ i. has-without (flag m) xs i ∙ covered e i)
      ∙ sym e
  | inr e ↦ elim (Bool-cases (is_empty (without (flag m) xs))) [
    | inl f ↦ absurd (
        true≢false
          (sym (has-without (flag m) xs m ∙ missing e) ∙ has-is_empty (without (flag m) xs) m f))
    | inr f ↦ f ∙ sym e
  ]
]
  where
    covered : has xs m ≡ true → (i : ℕ) → (has (flag m) i && not (has xs i)) ≡ false
    covered e i = rw (has-flag m i h) (elim (ℕ_discrete i m) [
      | yes p ↦ rw (p, e) (and_false (m == m))
      | no n ↦ rw (eq_ne n) refl
    ])

    missing : has xs m ≡ false → (has (flag m) m && not (has xs m)) ≡ true
    missing e = rw (has-flag m m h, ==_refl m, e) refl

-- The lowest bit of a set.
pub trailing_zeros-first :
    (xs : SignalFlags) (m : ℕ)
    → has xs m ≡ true
    → ((i : ℕ) → i < m → has xs i ≡ false)
    → trailing_zeros xs ≡ m
trailing_zeros-first xs m e h = elim (Bool-cases (is_empty xs)) [
  | inl f ↦ absurd (true≢false (sym e ∙ has-is_empty xs m f))
  | inr f ↦ elim (dec_lt (trailing_zeros xs) m) [
    | yes below ↦ absurd (true≢false (sym (has-trailing_zeros xs f) ∙ h (trailing_zeros xs) below))
    | no not_below ↦ elim (dec_lt m (trailing_zeros xs)) [
      | yes above ↦ absurd (true≢false (sym e ∙ has-below_trailing_zeros xs m above))
      | no not_above ↦ omega (arith, not_below, not_above)
    ]
  ]
]

number_from-flag :
    (n i m : ℕ) → i ≤ m → m < i + n → m < max_sig → number_from n i (flag m) ≡ some (m + 1)
unfolding number_from
number_from-flag zero i m h k l = absurd (omega arith)
number_from-flag (suc n) i m h k l = elim (ℕ_discrete i m) [
  | yes e ↦ rw (contains_flags-flag (flag m) i (omega arith), has-flag m i l, e, ==_refl m) refl
  | no n_eq ↦
      rw (contains_flags-flag (flag m) i (omega arith), has-flag m i l, eq_ne n_eq)
        (number_from-flag n (i + 1) m (omega (arith, n_eq)) (omega arith) l)
]

pub number-flag : (m : ℕ) → m < max_sig → number (flag m) ≡ some (m + 1)
unfolding number
number-flag m h = number_from-flag 64 0 m (omega arith) (omega arith) h

pub length-flag : (m : ℕ) → length (flag m) ≡ max_sig
length-flag m = length-set empty m true ∙ length-replicate 64 false

pub length-without : (xs ys : SignalFlags) {n : ℕ} → length xs ≡ n → length (without xs ys) ≡ n
unfolding without
length-without [] ys e = e
length-without (x ∷ xs) [] e = e
length-without (x ∷ xs) (y ∷ ys) e = ap suc (length-without xs ys refl) ∙ e

pub length-union :
    (xs ys : SignalFlags) {n : ℕ} → length xs ≡ n → length ys ≡ n → length (union xs ys) ≡ n
unfolding union
length-union [] ys e f = f
length-union (x ∷ xs) [] e f = e
length-union (x ∷ xs) (y ∷ ys) e f = ap suc (length-union xs ys refl (omega (arith, e, f))) ∙ e
