-- ===== src/Frames/Blocks.antt =====
-- Lists of page blocks: what `split_into` of os/src/mm/frame_allocator.rs adds to one.
use os.Base.{ℕ, zero, suc, ◌+◌, ◌*◌, ◌%◌, ◌≤◌, ◌≡◌, List, [], ◌∷◌, arith, within, covers, length}
use mathlib.Core.Path.{ap₂}
use os.Frames.{push_units}

-- Every base in the list is a multiple of `size`.
abbrev pub Aligned : ℕ → List ℕ → Type 0
Aligned size [] = Unit {0}
Aligned size (b ∷ bs) = (b % size ≡ 0) × Aligned size bs

pub within-add :
    (lo mid hi p : ℕ) → lo ≤ mid → mid ≤ hi → within lo hi p ≡ within lo mid p + within mid hi p
within-add lo mid hi p h k = ground arith

pub covers-push_units :
    (base unit i n p : ℕ) (bs : List ℕ)
    → covers unit p (push_units base unit i n bs)
      ≡ covers unit p bs + within (base + i * unit) (base + i * unit + n * unit) p
unfolding covers push_units
covers-push_units base unit i zero p bs = ground arith
covers-push_units base unit i (suc n) p bs = omega (
  arith,
  covers-push_units base unit (i + 1) n p ((base + i * unit) ∷ bs),
  within-add (base + i * unit) (base + i * unit + unit) (base + i * unit + suc n * unit) p
      (omega arith) (omega arith),
  same,
)
  where
    same :
        within (base + (i + 1) * unit) (base + (i + 1) * unit + n * unit) p
        ≡ within (base + i * unit + unit) (base + i * unit + suc n * unit) p
    same = ap₂ (λ lo hi. within lo hi p) (omega arith) (omega arith)

pub length-push_units :
    (base unit i n : ℕ) (bs : List ℕ) → length (push_units base unit i n bs) ≡ length bs + n
unfolding push_units
length-push_units base unit i zero bs = omega arith
length-push_units base unit i (suc n) bs =
    omega (arith, length-push_units base unit (i + 1) n ((base + i * unit) ∷ bs))

pub Aligned-push_units :
    (base i n : ℕ) (bs : List ℕ)
    → base % 512 ≡ 0
    → Aligned 512 bs
    → Aligned 512 (push_units base 512 i n bs)
unfolding push_units
Aligned-push_units base i zero bs h k = k
Aligned-push_units base i (suc n) bs h k =
    Aligned-push_units base (i + 1) n ((base + i * 512) ∷ bs) h (omega arith, k)
