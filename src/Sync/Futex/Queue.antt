-- ===== src/Sync/Futex/Queue.antt =====
-- What leaves a queue of os/src/process/scheduler/futex.rs, counted.
use os.Base.{
  ℕ, ◌+◌, Bool, true, false, if_cases, ◌≡◌, ◌≢◌, refl, Option, none, some, List, [], ◌∷◌, ◌==◌,
  if◌then◌else◌, count, arith, sym, not, ==_refl,
}
use mathlib.Core.Path.{fun_ext, subst}
use os.Sync.Futex.{put, pop_matching, remove_waiter}
use Prim.Native.Nat.{bit_and}

module _ {ℓ} {A : Type ℓ} where
  pub put_self : (f : ℕ → A) (i : ℕ) (v : A) → put f i v i ≡ v
  put_self f i v = rw (==_refl i) refl

  pub put_ne : (f : ℕ → A) (i : ℕ) (v : A) {j : ℕ} → j ≢ i → put f i v j ≡ f j
  put_ne f i v {j} h = let e : (j == i) ≡ false = ground (arith, h) in rw e refl

  pub put_twice : (f : ℕ → A) (i : ℕ) (u v : A) → put (put f i u) i v ≡ put f i v
  put_twice f i u v = fun_ext (λ j. same (j == i) (f j))
    where
      same : (b : Bool) (z : A) → (if b then v else (if b then u else z)) ≡ (if b then v else z)
      same true z = refl
      same false z = refl

-- `rest` is the queue without one `w`.
abbrev pub Without : ℕ → List ℕ → List ℕ → Type 0
Without w rest ws = (a : ℕ) → count a rest + (if a == w then 1 else 0) ≡ count a ws

pub front-Without : (w : ℕ) (ws : List ℕ) → Without w ws (w ∷ ws)
unfolding count
front-Without w ws a = omega arith

later-Without : (v w : ℕ) (rest ws : List ℕ) → Without w rest ws → Without w (v ∷ rest) (v ∷ ws)
unfolding count
later-Without v w rest ws h a = omega (arith, h a)

-- What a search took out of the queue `ws`.
abbrev Takes : List ℕ → Option (ℕ × List ℕ) → Type 0
Takes ws none = Unit
Takes ws (some (w, rest)) = Without w rest ws

pop_matching-Takes : (bits : ℕ → ℕ) (mask : ℕ) (ws : List ℕ) → Takes ws (pop_matching bits mask ws)
unfolding pop_matching
pop_matching-Takes bits mask [] = tt
pop_matching-Takes bits mask (v ∷ ws) =
    if_cases (Takes (v ∷ ws)) (not (bit_and (bits v) mask == 0)) (λ _. front-Without v ws)
      (λ _. later (pop_matching bits mask ws) (pop_matching-Takes bits mask ws))
  where
    later :
        (o : Option (ℕ × List ℕ))
        → Takes ws o
        → Takes (v ∷ ws) (elim o [ none ↦ none | some (w, others) ↦ some (w, v ∷ others) ])
    later none h = tt
    later (some (w, others)) h = later-Without v w others ws h

pub pop_matching-Without :
    (bits : ℕ → ℕ) (mask : ℕ) (ws : List ℕ) {w : ℕ} {rest : List ℕ}
    → pop_matching bits mask ws ≡ some (w, rest)
    → Without w rest ws
pop_matching-Without bits mask ws e = subst (Takes ws) e (pop_matching-Takes bits mask ws)

-- What the removal of `w` left of the queue `ws`.
abbrev Leaves : ℕ → List ℕ → Option (List ℕ) → Type 0
Leaves w ws none = count w ws ≡ 0
Leaves w ws (some rest) = Without w rest ws

remove_waiter-Leaves : (w : ℕ) (ws : List ℕ) → Leaves w ws (remove_waiter w ws)
unfolding remove_waiter count
remove_waiter-Leaves w [] = refl
remove_waiter-Leaves w (v ∷ ws) =
    if_cases (Leaves w (v ∷ ws)) (v == w)
      (λ e a. let same : v ≡ w = ground (arith, e) in rw (sym same) (front-Without v ws a))
      (λ e. later e (remove_waiter w ws) (remove_waiter-Leaves w ws))
  where
    later :
        (v == w) ≡ false
        → (o : Option (List ℕ)) → Leaves w ws o
        → Leaves w (v ∷ ws) (elim o [ none ↦ none | some others ↦ some (v ∷ others) ])
    later e none h = ground (arith, e, h)
    later e (some others) h = later-Without v w others ws h

pub remove_waiter-Without :
    (w : ℕ) (ws : List ℕ) {rest : List ℕ} → remove_waiter w ws ≡ some rest → Without w rest ws
remove_waiter-Without w ws e = subst (Leaves w ws) e (remove_waiter-Leaves w ws)

pub remove_waiter-none : (w : ℕ) (ws : List ℕ) → remove_waiter w ws ≡ none → count w ws ≡ 0
remove_waiter-none w ws e = subst (Leaves w ws) e (remove_waiter-Leaves w ws)
