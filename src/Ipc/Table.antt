-- ===== src/Ipc/Table.antt =====
-- Association lists for the maps of os/src/ipc, where an insert replaces.
use os.Base.{
  ℕ, ◌+◌, ◌<◌, ◌≡◌, ◌≢◌, refl, Option, none, some, List, [], ◌∷◌, ◌==◌, if◌then◌else◌, count, arith,
  ap, ℕ_discrete,
}

module _ {ℓ} {A : Type ℓ} where
  unfoldable pub lookup : List (ℕ × A) → ℕ → Option A
  lookup [] k = none
  lookup (e ∷ es) k = if e.0 == k then some e.1 else lookup es k

  unfoldable pub delete : List (ℕ × A) → ℕ → List (ℕ × A)
  delete [] k = []
  delete (e ∷ es) k = if e.0 == k then delete es k else e ∷ delete es k

  unfoldable pub insert : List (ℕ × A) → ℕ → A → List (ℕ × A)
  unfolding delete
  insert es k v = (k, v) ∷ delete es k

  unfoldable pub keys : List (ℕ × A) → List ℕ
  keys [] = []
  keys (e ∷ es) = e.0 ∷ keys es

  pub lookup-delete_self : (es : List (ℕ × A)) (k : ℕ) → lookup (delete es k) k ≡ none
  unfolding lookup delete
  lookup-delete_self [] k = refl
  lookup-delete_self (e ∷ es) k = ground (arith, lookup-delete_self es k)

  pub lookup-delete_ne :
      (es : List (ℕ × A)) (k j : ℕ) → j ≢ k → lookup (delete es k) j ≡ lookup es j
  unfolding lookup delete
  lookup-delete_ne [] k j h = refl
  lookup-delete_ne (e ∷ es) k j h = ground (arith, lookup-delete_ne es k j h)

  pub lookup-insert_self : (es : List (ℕ × A)) (k : ℕ) (v : A) → lookup (insert es k v) k ≡ some v
  unfolding lookup insert
  lookup-insert_self es k v = ground arith

  pub lookup-insert_ne :
      (es : List (ℕ × A)) (k j : ℕ) (v : A) → j ≢ k → lookup (insert es k v) j ≡ lookup es j
  unfolding lookup insert
  lookup-insert_ne es k j v h = ground (arith, lookup-delete_ne es k j h)

  pub count-keys-delete :
      (es : List (ℕ × A)) (k i : ℕ)
      → count i (keys (delete es k)) ≡ (if i == k then 0 else count i (keys es))
  unfolding keys delete count
  count-keys-delete [] k i = ground arith
  count-keys-delete (e ∷ es) k i = ground (arith, count-keys-delete es k i)

  pub count-keys-insert_new :
      (es : List (ℕ × A)) (k i : ℕ) (v : A)
      → count k (keys es) ≡ 0
      → count i (keys (insert es k v)) ≡ (if i == k then 1 else 0) + count i (keys es)
  unfolding keys insert count
  count-keys-insert_new es k i v h = elim (ℕ_discrete i k) [
    | yes e ↦ ground (arith, e, h, ap (λ j. count j (keys es)) e, count-keys-delete es k i)
    | no ne ↦ ground (arith, count-keys-delete es k i)
  ]

  pub lookup-keys :
      (es : List (ℕ × A)) (k : ℕ) {v : A} → lookup es k ≡ some v → 0 < count k (keys es)
  unfolding lookup keys count
  lookup-keys [] k e = cc
  lookup-keys (x ∷ es) k {v} e = elim (ℕ_discrete x.0 k) [
    | yes p ↦ ground arith
    | no p ↦
        let later : lookup es k ≡ some v = ground (arith, e) in
        omega (arith, lookup-keys es k later)
  ]

  pub lookup-eq-none : (es : List (ℕ × A)) (k : ℕ) → lookup es k ≡ none → count k (keys es) ≡ 0
  unfolding lookup keys count
  lookup-eq-none [] k e = refl
  lookup-eq-none (x ∷ es) k e = elim (ℕ_discrete x.0 k) [
    | yes p ↦ absurd (ground (arith, e))
    | no p ↦
        let later : lookup es k ≡ none = ground (arith, e) in
        ground (arith, lookup-eq-none es k later)
  ]
