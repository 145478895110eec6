-- ===== src/Sched/Tree/Listed.antt =====
-- A tree that is the list of its entries, with which the interface of the red-black tree holds.
use os.Base.{
  ◌≡◌, refl, ap, Bool, false, Option, none, some, List, [], ◌∷◌, if◌then◌else◌, Bool-cases, inl,
  inr,
}
use os.Sched.Tree.{Tree, insert_entry, first_entry, Removed, same_key, no_entries}

module _ {K V : Type 0} where
  abbrev pub pop_entry : List (K × V) → Option (V × List (K × V))
  pop_entry [] = none
  pop_entry (e ∷ es) = some (e.1, es)

  -- The first entry with the property is taken out.
  unfoldable pub take_where : (K × V → Bool) → List (K × V) → Option V × List (K × V)
  take_where test [] = (none, [])
  take_where test (e ∷ es) =
      let (found, rest) = take_where test es in if test e then (some e.1, es) else (found, e ∷ rest)

  later :
      (test : K × V → Bool) (e : K × V) (es : List (K × V)) (o : Option V) (rest : List (K × V))
      → test e ≡ false
      → Removed test es o rest
      → Removed test (e ∷ es) o (e ∷ rest)
  later test e es none rest miss (n, same) = ((miss, n), ap (λ xs. e ∷ xs) same)
  later test e es (some v) rest miss (key, before, after, hit, f, g) =
      (key, e ∷ before, after, hit, ap (λ xs. e ∷ xs) f, ap (λ xs. e ∷ xs) g)

  pub take_where_lem :
      (test : K × V → Bool) (es : List (K × V))
      → Removed test es (take_where test es).0 (take_where test es).1
  unfolding take_where
  take_where_lem test [] = (tt, refl)
  take_where_lem test (e ∷ es) = elim (Bool-cases (test e)) [
    | inl t ↦ rw t (e.0, [], es, t, refl, refl)
    | inr f ↦
        rw f
          (later test e es (take_where test es).0 (take_where test es).1 f (take_where_lem test es))
  ]

-- A tree is the list of its entries.
abbrev pub listed : {K V : Type 0} (lt : K → K → Bool) → Tree K V lt
listed {K} {V} lt = record {
  Root = List (K × V);
  entries = λ r. r;
  new = [];
  insert = λ r key value. insert_entry lt key value r;
  first = first_entry;
  pop_first = pop_entry;
  is_empty = no_entries;
  remove = λ r key. take_where (λ e. same_key lt key e.0) r;
  remove_where = λ r test. take_where (λ e. test e.1) r;
  entries-new = refl;
  entries-insert = λ r key value. refl;
  first_lem = λ r. refl;
  pop_first_none = λ r e. ap pop_entry e;
  pop_first_some = λ r {e} {es} h. (es, ap pop_entry h, refl);
  remove_where_lem = λ r test. take_where_lem (λ e. test e.1) r;
  is_empty_lem = λ r. refl;
  remove_lem = λ r key. take_where_lem (λ e. same_key lt key e.0) r;
}
