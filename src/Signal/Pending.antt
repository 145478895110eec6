-- ===== src/Signal/Pending.antt =====
-- The invariant of `Sigpending` of os/src/process/signal/state.rs: its queue and its set agree.
use os.Base.{
  ℕ, ◌+◌, ◌<◌, ◌≡◌, refl, ap, sym, ◌∙◌, not, ◌&&◌, ◌||◌, some, List, [], ◌∷◌, ◌++◌, ◌==◌, length,
  arith, contains,
}
use os.Signal.Flags.{max_sig, flag, has, union, without, Sigpending, retain_ne, insert, remove}
use os.Signal.Bits.{
  has-union, has-without, has-flag, number-flag, length-union, length-without, length-flag,
}

-- The set has 64 bits, and bit i is in it exactly if number i + 1 is in the queue.
abbrev pub IsValid : Sigpending → Type 0
IsValid p = (length p.signals ≡ max_sig) × ((i : ℕ) → contains p.queue (i + 1) ≡ has p.signals i)

contains-push : (qs : List ℕ) (n a : ℕ) → contains (qs ++ (n ∷ [])) a ≡ (contains qs a || (n == a))
unfolding contains
contains-push [] n a = ground arith
contains-push (q ∷ qs) n a = ground (arith, contains-push qs n a)

contains-retain_ne :
    (n : ℕ) (qs : List ℕ) (a : ℕ) → contains (retain_ne n qs) a ≡ (contains qs a && not (a == n))
unfolding contains retain_ne
contains-retain_ne n [] a = refl
contains-retain_ne n (q ∷ qs) a = ground (arith, contains-retain_ne n qs a)

suc_test : (m i : ℕ) → (m + 1 == i + 1) ≡ (i == m)
suc_test m i = ground arith

suc_test_sym : (m i : ℕ) → (i + 1 == m + 1) ≡ (i == m)
suc_test_sym m i = ground arith

-- `insert` of one signal into a pending set whose queue and set agree does not panic, and adds
-- exactly that signal to both.
pub insert-IsValid :
    (p : Sigpending) (m : ℕ)
    → m < max_sig
    → IsValid p
    → (p' : Sigpending) × (insert p (flag m) ≡ some p')
      × IsValid p'
      × ((i : ℕ) → has p'.signals i ≡ (has p.signals i || i == m))
unfolding insert
insert-IsValid p m h (l, agree) = (
  record { queue = p.queue ++ ((m + 1) ∷ []); signals = union p.signals (flag m) },
  rw (number-flag m h, insert) refl,
  (
    length-union p.signals (flag m) l (length-flag m),
    λ i. contains-push p.queue (m + 1) (i + 1) ∙ rw (agree i, suc_test m i) (sym (added i)),
  ),
  added,
)
  where
    added : (i : ℕ) → has (union p.signals (flag m)) i ≡ (has p.signals i || i == m)
    added i = has-union p.signals (flag m) i ∙ ap (λ b. has p.signals i || b) (has-flag m i h)

-- `remove` of one signal from a pending set whose queue and set agree does not panic, and takes exactly
-- that signal out of both.
pub remove-IsValid :
    (p : Sigpending) (m : ℕ)
    → m < max_sig
    → IsValid p
    → (p' : Sigpending) × (remove p (flag m) ≡ some p')
      × IsValid p'
      × ((i : ℕ) → has p'.signals i ≡ (has p.signals i && not (i == m)))
unfolding remove
remove-IsValid p m h (l, agree) = (
  record { queue = retain_ne (m + 1) p.queue; signals = without p.signals (flag m) },
  rw (number-flag m h, remove) refl,
  (
    length-without p.signals (flag m) l,
    λ i.
        contains-retain_ne (m + 1) p.queue (i + 1) ∙ rw (agree i, suc_test_sym m i) (sym (taken i)),
  ),
  taken,
)
  where
    taken : (i : ℕ) → has (without p.signals (flag m)) i ≡ (has p.signals i && not (i == m))
    taken i = has-without p.signals (flag m) i ∙ ap (λ b. has p.signals i && not b) (has-flag m i h)
