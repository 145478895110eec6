-- ===== src/Sched/Tree/Entries.antt =====
-- Entries of the red-black tree in the order of their keys.
use os.Base.{
  sym, length-append, some, arith, suc, ◌≡◌, refl, ap, Bool, true, false, List, [], ◌∷◌, ◌++◌,
  length, if_cases,
}
use mathlib.Core.Path.{subst}
use os.Sched.Tree.{insert_entry, Removed}

module _ {K V : Type 0} (lt : K → K → Bool) where
  -- No key is less than `k`.
  abbrev pub NotLess : K → List (K × V) → Type 0
  NotLess k [] = Unit
  NotLess k (e ∷ es) = (lt e.0 k ≡ false) × NotLess k es

  abbrev pub Sorted : List (K × V) → Type 0
  Sorted [] = Unit
  Sorted (e ∷ es) = NotLess e.0 es × Sorted es

  pub length-insert_entry :
      (k : K) (v : V) (es : List (K × V)) → length (insert_entry lt k v es) ≡ suc (length es)
  unfolding insert_entry
  length-insert_entry k v [] = refl
  length-insert_entry k v (e ∷ es) =
      if_cases (λ (xs : List (K × V)). length xs ≡ suc (length (e ∷ es))) (lt k e.0) (λ _. refl)
        (λ _. ap suc (length-insert_entry k v es))

  NotLess-insert_entry :
      (j k : K) (v : V) (es : List (K × V))
      → lt k j ≡ false
      → NotLess j es
      → NotLess j (insert_entry lt k v es)
  unfolding insert_entry
  NotLess-insert_entry j k v [] h n = (h, tt)
  NotLess-insert_entry j k v (e ∷ es) h (n, ns) =
      if_cases (NotLess j) (lt k e.0) (λ _. (h, (n, ns)))
        (λ _. (n, NotLess-insert_entry j k v es h ns))

  NotLess-less :
      (trans : (a b c : K) → lt a b ≡ true → lt c b ≡ false → lt c a ≡ false) (k j : K)
      (es : List (K × V))
      → lt k j ≡ true
      → NotLess j es
      → NotLess k es
  NotLess-less trans k j [] h n = tt
  NotLess-less trans k j (e ∷ es) h (n, ns) = (trans k j e.0 h n, NotLess-less trans k j es h ns)

  pub Sorted-insert_entry :
      (asym : (a b : K) → lt a b ≡ true → lt b a ≡ false)
      (trans : (a b c : K) → lt a b ≡ true → lt c b ≡ false → lt c a ≡ false) (k : K) (v : V)
      (es : List (K × V))
      → Sorted es
      → Sorted (insert_entry lt k v es)
  unfolding insert_entry
  Sorted-insert_entry asym trans k v [] s = (tt, tt)
  Sorted-insert_entry asym trans k v (e ∷ es) (n, s) =
      if_cases Sorted (lt k e.0)
        (λ less. ((asym k e.0 less, NotLess-less trans k e.0 es less n), (n, s)))
        (λ not_less.
          (NotLess-insert_entry e.0 k v es not_less n, Sorted-insert_entry asym trans k v es s))

  NotLess-middle :
      (j : K) (before : List (K × V)) (x : K × V) (after : List (K × V))
      → NotLess j (before ++ (x ∷ after))
      → NotLess j (before ++ after)
  NotLess-middle j [] x after (_, ns) = ns
  NotLess-middle j (e ∷ before) x after (n, ns) = (n, NotLess-middle j before x after ns)

  pub Sorted-middle :
      (before : List (K × V)) (x : K × V) (after : List (K × V))
      → Sorted (before ++ (x ∷ after))
      → Sorted (before ++ after)
  Sorted-middle [] x after (_, s) = s
  Sorted-middle (e ∷ before) x after (n, s) =
      (NotLess-middle e.0 before x after n, Sorted-middle before x after s)

  -- What is left when an entry is gone is in order, and one shorter.
  pub Removed-Sorted :
      (test : K × V → Bool) (es : List (K × V)) (value : V) (es' : List (K × V))
      → Removed test es (some value) es'
      → Sorted es
      → Sorted es' × (length es ≡ suc (length es'))
  Removed-Sorted test es value es' (key, before, after, _, e, f) s = (
    subst Sorted (sym f) (Sorted-middle before (key, value) after (subst Sorted e s)),
    omega (
      arith,
      ap length e,
      ap length f,
      length-append before ((key, value) ∷ after),
      length-append before after,
    ),
  )
