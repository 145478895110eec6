-- ===== src/Signal/Flags.antt =====
-- `SignalFlags` and `Sigpending` of os/src/process/signal/state.rs. The bits of a set stand in a list,
-- the lowest first; bit m is signal m + 1. All 64 bits are defined, so `from_bits` never fails.
use os.Base.{
  ℕ, zero, suc, ◌+◌, Bool, true, false, not, ◌&&◌, ◌||◌, Option, none, some, List, [], ◌∷◌, ◌++◌,
  ◌==◌, if◌then◌else◌, get_or, set, replicate,
}

-- `MAX_SIG`
abbrev pub max_sig : ℕ
max_sig = 64

abbrev pub SignalFlags : Type 0
SignalFlags = List Bool

abbrev pub empty : SignalFlags
empty = replicate max_sig false

-- `SignalFlags::from_bits(1 << m)`
abbrev pub flag : ℕ → SignalFlags
flag m = set empty m true

-- Bit m
abbrev pub has : SignalFlags → ℕ → Bool
has bits m = get_or bits m false

-- `|`, `insert`
unfoldable pub union : SignalFlags → SignalFlags → SignalFlags
union [] ys = ys
union (x ∷ xs) [] = x ∷ xs
union (x ∷ xs) (y ∷ ys) = (x || y) ∷ union xs ys

-- `remove`, `& !`
unfoldable pub without : SignalFlags → SignalFlags → SignalFlags
without [] ys = []
without (x ∷ xs) [] = x ∷ xs
without (x ∷ xs) (y ∷ ys) = (x && not y) ∷ without xs ys

-- `bits() == 0`
unfoldable pub is_empty : SignalFlags → Bool
is_empty [] = true
is_empty (x ∷ xs) = not x && is_empty xs

-- `contains`: every bit of the second set is in the first.
unfoldable pub contains_flags : SignalFlags → SignalFlags → Bool
contains_flags xs ys = is_empty (without ys xs)

unfoldable pub trailing_zeros : SignalFlags → ℕ
trailing_zeros [] = zero
trailing_zeros (x ∷ xs) = let rest = trailing_zeros xs in if x then zero else suc rest

-- `number`, from bit `i` on with `n` bits to go. The loop also shifts 1 by 64, which panics: `none`.
unfoldable pub number_from : ℕ → ℕ → SignalFlags → Option ℕ
number_from zero i bits = none
number_from (suc n) i bits =
    let rest = number_from n (i + 1) bits in
    if contains_flags bits (flag i) then some (i + 1) else rest

unfoldable pub number : SignalFlags → Option ℕ
number bits = number_from max_sig 0 bits

pub record Sigpending : Type 0 where
  pub queue : List ℕ
  pub signals : SignalFlags

abbrev pub new_pending : Sigpending
new_pending = record { queue = []; signals = empty }

-- `retain(|q| *q != n)`
unfoldable pub retain_ne : ℕ → List ℕ → List ℕ
retain_ne n [] = []
retain_ne n (q ∷ qs) = let rest = retain_ne n qs in if q == n then rest else q ∷ rest

unfoldable pub insert : Sigpending → SignalFlags → Option Sigpending
insert p signal = elim (number signal) [
  | none ↦ none
  | some n ↦ some (record { queue = p.queue ++ (n ∷ []); signals = union p.signals signal })
]

unfoldable pub remove : Sigpending → SignalFlags → Option Sigpending
remove p signal = elim (number signal) [
  | none ↦ none
  | some n ↦ some (record { queue = retain_ne n p.queue; signals = without p.signals signal })
]
