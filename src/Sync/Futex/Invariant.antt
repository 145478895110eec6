-- ===== src/Sync/Futex/Invariant.antt =====
-- The invariant of the futex queues of os/src/process/scheduler/futex.rs, where a waiter leaves or joins one.
use os.Base.{
  ℕ, ◌+◌, ◌<◌, ◌≤◌, ◌≡◌, ◌≢◌, refl, ap, ◌∙◌, true, Option, none, some, List, [], ◌∷◌, ◌++◌, ◌==◌,
  if◌then◌else◌, count, count-append, arith, ℕ_discrete, ==_refl,
}
use mathlib.Core.Path.{subst}
use os.Ipc.Table.{lookup}
use os.Sync.Futex.{Store, put, detach, attach}
use os.Sync.Futex.Queue.{put_self, put_ne, Without}

-- 1 if the location names queue `q`, else 0
abbrev pub at : Option (ℕ × ℕ) → ℕ → ℕ
at none q = 0
at (some (key, q')) q = if q' == q then 1 else 0

-- The map has the queue of the location under its key.
abbrev pub Registered : Option (ℕ × ℕ) → List (ℕ × ℕ) → Type 0
Registered none queues = Unit
Registered (some (key, q)) queues = lookup queues key ≡ some q

abbrev pub Below : Option ℕ → ℕ → Type 0
Below none n = Unit
Below (some q) n = q < n

-- A waiter stands in the queue that its location names, once, and nowhere else; that queue is in the
-- map under the key; queues that were never made are not in the map, and empty.
abbrev pub Consistent : Store → Type 0
Consistent s =
    ((w q : ℕ) → count w (s.contents q) ≡ at (s.location w) q)
    × ((w : ℕ) → Registered (s.location w) s.queues)
    × ((key : ℕ) → Below (lookup s.queues key) s.fresh)
    × ((j : ℕ) → s.contents (s.fresh + j) ≡ [])

at_unique : (o : Option (ℕ × ℕ)) (q q' : ℕ) → 0 < at o q → q' ≢ q → at o q' ≡ 0
at_unique none q q' h n = refl
at_unique (some (key, p)) q q' h n = ground (arith, h, n)

at_le : (o : Option (ℕ × ℕ)) (q : ℕ) → at o q ≤ 1
at_le none q = omega arith
at_le (some (key, p)) q = ground arith

-- A queue with a waiter is none of those that were never made.
used :
    (s : Store) (w q j : ℕ)
    → count w (s.contents q) ≡ at (s.location w) q
    → 0 < at (s.location w) q
    → s.contents (s.fresh + j) ≡ []
    → s.fresh + j ≡ q
    → ⊥
unfolding count
used s w q j c h u e = omega (arith, h, c, ap (count w) u, ap (λ p. count w (s.contents p)) e)

-- What a waiter that leaves queue `q` leaves behind.
pub detach-Consistent :
    (s : Store) (w q : ℕ) (rest : List ℕ)
    → Consistent s
    → Without w rest (s.contents q)
    → Consistent (detach s w q rest)
unfolding detach
detach-Consistent s w q rest (counted, registered, below, unused) h =
    (counts, named, below, still_unused)
  where
    here : 0 < at (s.location w) q
    here = let one : (w == w) ≡ true = ==_refl w in ground (arith, h w, counted w q, one)

    counts : (a p : ℕ) → count a (put s.contents q rest p) ≡ at (put s.location w none a) p
    counts a p = elim (ℕ_discrete p q) [
      | yes e ↦ elim (ℕ_discrete a w) [
        | yes f ↦
            rw (e, f, put_self s.contents q rest, put_self s.location w none)
              (ground (arith, h w, counted w q, at_le (s.location w) q, ==_refl w))
        | no n ↦
            rw (e, put_self s.contents q rest, put_ne s.location w none n)
              (ground (arith, h a, counted a q, n))
      ]
      | no m ↦ elim (ℕ_discrete a w) [
        | yes f ↦
            rw (f, put_ne s.contents q rest m, put_self s.location w none)
              (counted w p ∙ at_unique (s.location w) q p here m)
        | no n ↦ rw (put_ne s.contents q rest m, put_ne s.location w none n) (counted a p)
      ]
    ]

    named : (a : ℕ) → Registered (put s.location w none a) s.queues
    named a = elim (ℕ_discrete a w) [
      | yes e ↦ rw (e, put_self s.location w none) tt
      | no n ↦ rw (put_ne s.location w none n) (registered a)
    ]

    still_unused : (j : ℕ) → put s.contents q rest (s.fresh + j) ≡ []
    still_unused j =
        rw (put_ne s.contents q rest (λ e. used s w q j (counted w q) here (unused j) e)) (unused j)

-- A waiter that is in no queue joins one that is in the map.
pub attach-Consistent :
    (s : Store) (w key q : ℕ)
    → Consistent s
    → s.location w ≡ none
    → lookup s.queues key ≡ some q
    → Consistent (attach s w key q)
unfolding attach count
attach-Consistent s w key q (counted, registered, below, unused) free known =
    (counts, named, below, still_unused)
  where
    here : Option (ℕ × ℕ)
    here = some (key, q)

    nowhere : (p : ℕ) → count w (s.contents p) ≡ 0
    nowhere p = counted w p ∙ ap (λ o. at o p) free

    pushed :
        (a : ℕ)
        → count a (s.contents q ++ (w ∷ []))
          ≡ count a (s.contents q) + ((if a == w then 1 else 0) + 0)
    pushed a = count-append a (s.contents q) (w ∷ [])

    counts :
        (a p : ℕ)
        → count a (put s.contents q (s.contents q ++ (w ∷ [])) p) ≡ at (put s.location w here a) p
    counts a p = elim (ℕ_discrete p q) [
      | yes e ↦ elim (ℕ_discrete a w) [
        | yes f ↦
            rw (e, f, put_self s.contents q (s.contents q ++ (w ∷ [])), put_self s.location w here)
              (ground (arith, pushed w, nowhere q, ==_refl w, ==_refl q))
        | no n ↦
            rw (e, put_self s.contents q (s.contents q ++ (w ∷ [])), put_ne s.location w here n)
              (ground (arith, pushed a, counted a q, n))
      ]
      | no m ↦ elim (ℕ_discrete a w) [
        | yes f ↦
            rw (f, put_ne s.contents q (s.contents q ++ (w ∷ [])) m, put_self s.location w here)
              (ground (arith, nowhere p, m))
        | no n ↦
            rw (put_ne s.contents q (s.contents q ++ (w ∷ [])) m, put_ne s.location w here n)
              (counted a p)
      ]
    ]

    named : (a : ℕ) → Registered (put s.location w here a) s.queues
    named a = elim (ℕ_discrete a w) [
      | yes e ↦ rw (e, put_self s.location w here) known
      | no n ↦ rw (put_ne s.location w here n) (registered a)
    ]

    made : q < s.fresh
    made = subst (λ o. Below o s.fresh) known (below key)

    differ : (j : ℕ) → s.fresh + j ≢ q
    differ j e = omega (arith, made, e)

    still_unused : (j : ℕ) → put s.contents q (s.contents q ++ (w ∷ [])) (s.fresh + j) ≡ []
    still_unused j =
        rw (put_ne s.contents q (s.contents q ++ (w ∷ [])) (λ e. differ j e)) (unused j)
