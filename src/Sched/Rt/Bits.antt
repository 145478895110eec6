-- ===== src/Sched/Rt/Bits.antt =====
-- The priority bitmap of os/src/process/scheduler/rt_rq.rs as a set of priorities.
use os.Base.{
  ℕ, zero, suc, ◌+◌, ◌-◌, ◌*◌, ◌/◌, ◌%◌, ◌≤◌, ◌<◌, ◌≡◌, ◌≢◌, refl, ap, Bool, true, false, Option,
  none, some, List, [], ◌∷◌, arith, length, get_or, set, length-set, get_or-set_self, get_or-set_ne,
  Bool-cases, inl, inr, ℕ_discrete, dec_lt, ◌∙◌,
}
use os.Sched.Rt.{Word, write_bit, any_bit, trailing_zeros, find_word}

unfoldable pub bit : List Word → ℕ → Bool
bit words p = get_or (get_or words (p / 64) []) (p % 64) false

abbrev pub AllWords : List Word → Type 0
AllWords [] = Unit {0}
AllWords (w ∷ ws) = (length w ≡ 64) × AllWords ws

pub AllWords-get :
    (ws : List Word) (i : ℕ) → AllWords ws → i < length ws → length (get_or ws i []) ≡ 64
AllWords-get [] i h k = absurd (omega arith)
AllWords-get (w ∷ ws) zero h k = h.0
AllWords-get (w ∷ ws) (suc i) h k = AllWords-get ws i h.1 (omega arith)

pub AllWords-set :
    (ws : List Word) (i : ℕ) (w : Word) → AllWords ws → length w ≡ 64 → AllWords (set ws i w)
AllWords-set [] i w h k = tt
AllWords-set (v ∷ ws) zero w h k = (k, h.1)
AllWords-set (v ∷ ws) (suc i) w h k = (h.0, AllWords-set ws i w h.1 k)

pub write_bit-AllWords :
    (ws : List Word) (p : ℕ) (b : Bool)
    → AllWords ws
    → p / 64 < length ws
    → AllWords (write_bit ws p b)
write_bit-AllWords ws p b h k =
    AllWords-set ws (p / 64) _ h
      (length-set (get_or ws (p / 64) []) (p % 64) b ∙ AllWords-get ws (p / 64) h k)

pub bit-write_bit_self :
    (ws : List Word) (p : ℕ) (b : Bool)
    → AllWords ws
    → p / 64 < length ws
    → bit (write_bit ws p b) p ≡ b
unfolding bit
bit-write_bit_self ws p b h k =
    rw (get_or-set_self ws (p / 64) (set (get_or ws (p / 64) []) (p % 64) b) [] k) (
      get_or-set_self (get_or ws (p / 64) []) (p % 64) b false
        (omega (arith, AllWords-get ws (p / 64) h k)))

pub bit-write_bit_ne :
    (ws : List Word) (p q : ℕ) (b : Bool)
    → p / 64 < length ws
    → p ≢ q
    → bit (write_bit ws p b) q ≡ bit ws q
unfolding bit
bit-write_bit_ne ws p q b k ne = elim (ℕ_discrete (p / 64) (q / 64)) [
  | yes e ↦
      rw (← e, get_or-set_self ws (p / 64) (set (get_or ws (p / 64) []) (p % 64) b) [] k)
        (get_or-set_ne (get_or ws (p / 64) []) (p % 64) (q % 64) b false (λ r. ne (omega arith)))
  | no d ↦ rw (get_or-set_ne ws (p / 64) (q / 64) (set (get_or ws (p / 64) []) (p % 64) b) [] d)
]

any_bit-false : (w : Word) (i : ℕ) → any_bit w ≡ false → get_or w i false ≡ false
unfolding any_bit
any_bit-false [] i h = refl
any_bit-false (b ∷ w) zero h = ground arith
any_bit-false (b ∷ w) (suc i) h = any_bit-false w i (ground arith)

-- `trailing_zeros` of a word that is not zero is its lowest bit that is set.
record Lowest (w : Word) (i : ℕ) : Type 0 where
  inside : i < length w
  found : get_or w i false ≡ true
  below : (j : ℕ) → j < i → get_or w j false ≡ false

trailing_zeros-Lowest : (w : Word) → any_bit w ≡ true → Lowest w (trailing_zeros w)
unfolding any_bit trailing_zeros
trailing_zeros-Lowest [] h = cc
trailing_zeros-Lowest (true ∷ w) h = record {
  inside = omega arith;
  found = refl;
  below = λ j k. elim k [ ];
}
trailing_zeros-Lowest (false ∷ w) h =
    let r = trailing_zeros-Lowest w h in
    record { inside = omega (arith, r.inside); found = r.found; below = later r }
  where
    later :
        Lowest w (trailing_zeros w)
        → (j : ℕ) → j < suc (trailing_zeros w)
        → get_or (false ∷ w) j false ≡ false
    later r zero k = refl
    later r (suc j) k = r.below j (omega arith)

bit-cons_low : (w : Word) (ws : List Word) (p : ℕ) → p < 64 → bit (w ∷ ws) p ≡ get_or w p false
unfolding bit
bit-cons_low w ws p h =
    let e : p / 64 ≡ 0 = omega arith in let f : p % 64 ≡ p = omega arith in rw (e, f)

bit-cons_high : (w : Word) (ws : List Word) (p : ℕ) → bit (w ∷ ws) (64 + p) ≡ bit ws p
unfolding bit
bit-cons_high w ws p =
    let e : (64 + p) / 64 ≡ suc (p / 64) = omega arith in
    let f : (64 + p) % 64 ≡ p % 64 = omega arith in rw (e, f)

-- A property of all bits of a longer map, from its first word and the rest.
bit-cases :
    (w : Word) (ws : List Word) (b : Bool) (p : ℕ)
    → (p < 64 → get_or w p false ≡ b)
    → (64 ≤ p → bit ws (p - 64) ≡ b)
    → bit (w ∷ ws) p ≡ b
bit-cases w ws b p low high = elim (dec_lt p 64) [
  | yes h ↦ bit-cons_low w ws p h ∙ low h
  | no h ↦
      let k : 64 ≤ p = omega arith in
      let e : p ≡ 64 + (p - 64) = omega arith in
      ap (bit (w ∷ ws)) e ∙ bit-cons_high w ws (p - 64) ∙ high k
]

-- The result of the search: the lowest bit that is set, counted from word `n` on.
abbrev pub Found : ℕ → List Word → Option ℕ → Type 0
Found n ws none = (p : ℕ) → bit ws p ≡ false
Found n ws (some r) =
    (p : ℕ) × (r ≡ n * 64 + p) × (bit ws p ≡ true) × ((q : ℕ) → q < p → bit ws q ≡ false)

Found-skip :
    (n : ℕ) (w : Word) (ws : List Word) (o : Option ℕ)
    → length w ≡ 64
    → any_bit w ≡ false
    → Found (n + 1) ws o
    → Found n (w ∷ ws) o
Found-skip n w ws none h e f =
    λ p. bit-cases w ws false p (λ _. any_bit-false w p e) (λ _. f (p - 64))
Found-skip n w ws (some r) h e (p, at, set, below) = (
  64 + p,
  omega arith,
  bit-cons_high w ws p ∙ set,
  λ q k. bit-cases w ws false q (λ _. any_bit-false w q e) (λ l. below (q - 64) (omega arith)),
)

pub find_word-Found : (n : ℕ) (ws : List Word) → AllWords ws → Found n ws (find_word n ws)
unfolding find_word bit
find_word-Found n [] h = λ p. empty p
  where
    empty : (p : ℕ) → bit [] p ≡ false
    empty p = refl
find_word-Found n (w ∷ ws) h = elim (Bool-cases (any_bit w)) [
  | inl e ↦
      let r = trailing_zeros-Lowest w e in
      let i : ℕ = trailing_zeros w in
      let small : i < 64 = omega (arith, r.inside, h.0) in
      rw (e, find_word)
        (
          i,
          refl,
          bit-cons_low w ws i small ∙ r.found,
          λ q k. bit-cons_low w ws q (omega arith) ∙ r.below q k,
        )
  | inr e ↦
      rw (e, find_word)
        (Found-skip n w ws (find_word (n + 1) ws) h.0 e (find_word-Found (n + 1) ws h.1))
]
