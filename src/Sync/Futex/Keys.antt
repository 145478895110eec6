-- ===== src/Sync/Futex/Keys.antt =====
-- The invariant of the futex queues of os/src/process/scheduler/futex.rs, where a key joins or leaves the map.
use os.Base.{
  ℕ, ◌+◌, ◌≡◌, ◌≢◌, refl, ap, sym, ◌∙◌, Option, none, some, some_eq, option_split, List, [], ◌∷◌,
  length, count, arith, ℕ_discrete,
}
use os.Ipc.Table.{
  lookup, insert, delete, lookup-insert_self, lookup-insert_ne, lookup-delete_self,
  lookup-delete_ne,
}
use os.Sync.Futex.{Store, put, entry}
use os.Sync.Futex.Queue.{put_self, put_ne}
use os.Sync.Futex.Invariant.{at, Registered, Below, Consistent}

-- The queue of a key is in the map, made if need be.
pub entry-Consistent :
    (s : Store) (key : ℕ)
    → Consistent s
    → Consistent (entry s key).1
      × (lookup (entry s key).1.queues key ≡ some (entry s key).0)
      × ((entry s key).1.location ≡ s.location)
unfolding entry count
entry-Consistent s key (counted, registered, below, unused) =
    option_split P (lookup s.queues key)
      (λ e.
        ((counts, named e, bounded, unused_next), lookup-insert_self s.queues key s.fresh, refl))
      (λ q e. ((counted, registered, below, unused), e, refl))
  where
    P : ℕ × Store → Type 0
    P r = Consistent r.1 × (lookup r.1.queues key ≡ some r.0) × (r.1.location ≡ s.location)

    none_here : (w : ℕ) → at (s.location w) s.fresh ≡ 0
    none_here w =
        let same : s.fresh + 0 ≡ s.fresh = omega arith in
        sym (counted w s.fresh) ∙ ap (count w) (rw same at (unused 0))

    counts : (w q : ℕ) → count w (put s.contents s.fresh [] q) ≡ at (s.location w) q
    counts w q = elim (ℕ_discrete q s.fresh) [
      | yes e ↦ rw (e, put_self s.contents s.fresh [], none_here w) refl
      | no n ↦ rw (put_ne s.contents s.fresh [] n) (counted w q)
    ]

    named :
        lookup s.queues key ≡ none
        → (w : ℕ) → Registered (s.location w) (insert s.queues key s.fresh)
    named e w = kept (s.location w) (registered w)
      where
        kept :
            (o : Option (ℕ × ℕ))
            → Registered o s.queues
            → Registered o (insert s.queues key s.fresh)
        kept none h = tt
        kept (some (k, q)) h = elim (ℕ_discrete k key) [
          | yes f ↦ let lost : none ≡ some q = sym e ∙ (ap (lookup s.queues) (sym f) ∙ h) in cc
          | no n ↦ lookup-insert_ne s.queues key k s.fresh n ∙ h
        ]

    bounded : (k : ℕ) → Below (lookup (insert s.queues key s.fresh) k) (s.fresh + 1)
    bounded k = elim (ℕ_discrete k key) [
      | yes f ↦ rw (f, lookup-insert_self s.queues key s.fresh) (omega arith)
      | no n ↦ rw (lookup-insert_ne s.queues key k s.fresh n) (wider (lookup s.queues k) (below k))
    ]
      where
        wider : (o : Option ℕ) → Below o s.fresh → Below o (s.fresh + 1)
        wider none h = tt
        wider (some q) h = omega (arith, h)

    next : (j : ℕ) → s.fresh + 1 + j ≡ s.fresh + (j + 1)
    next j = omega arith

    unused_next : (j : ℕ) → put s.contents s.fresh [] (s.fresh + 1 + j) ≡ []
    unused_next j =
        put_ne s.contents s.fresh [] (further j) ∙ (ap s.contents (next j) ∙ unused (j + 1))
      where
        further : (j : ℕ) → s.fresh + 1 + j ≢ s.fresh
        further j h = omega (arith, h)

-- A key of an empty queue leaves the map.
pub delete-Consistent :
    (s : Store) (key q : ℕ)
    → Consistent s
    → lookup s.queues key ≡ some q
    → length (s.contents q) ≡ 0
    → Consistent (record s { queues = delete s.queues key })
unfolding count
delete-Consistent s key q (counted, registered, below, unused) known empty =
    (counted, named, bounded, unused)
  where
    nobody : (w : ℕ) → at (s.location w) q ≡ 0
    nobody w = sym (counted w q) ∙ none_in (s.contents q) empty
      where
        none_in : (ws : List ℕ) → length ws ≡ 0 → count w ws ≡ 0
        none_in [] e = refl
        none_in (v ∷ ws) e = absurd (omega (arith, e))

    named : (w : ℕ) → Registered (s.location w) (delete s.queues key)
    named w = kept (s.location w) (registered w) (nobody w)
      where
        kept :
            (o : Option (ℕ × ℕ))
            → Registered o s.queues
            → at o q ≡ 0
            → Registered o (delete s.queues key)
        kept none h z = tt
        kept (some (k, p)) h z = elim (ℕ_discrete k key) [
          | yes f ↦ absurd (other (some_eq (sym h ∙ (ap (lookup s.queues) f ∙ known))))
          | no n ↦ lookup-delete_ne s.queues key k n ∙ h
        ]
          where
            other : p ≡ q → ⊥
            other e = ground (arith, e, z)

    bounded : (k : ℕ) → Below (lookup (delete s.queues key) k) s.fresh
    bounded k = elim (ℕ_discrete k key) [
      | yes f ↦ rw (f, lookup-delete_self s.queues key) tt
      | no n ↦ rw (lookup-delete_ne s.queues key k n) (below k)
    ]
