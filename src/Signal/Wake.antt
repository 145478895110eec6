-- ===== src/Signal/Wake.antt =====
-- `check_pending_signal` and `pending_signal_should_restart` of os/src/process/signal/delivery.rs
-- against a search by index.
use os.Base.{
  ℕ, zero, suc, ◌+◌, ◌<◌, ◌≤◌, ◌≡◌, ◌≢◌, inl, inr, refl, ap, sym, ◌∙◌, Bool, true, false, Option,
  none, some, List, if◌then◌else◌, length, get_elem?, ℕ_discrete, ==_refl, get_elem?-split, arith,
  Bool-cases,
}
use os.Signal.Flags.{max_sig, SignalFlags, flag, has, without, is_empty, trailing_zeros}
use os.Signal.Bits.{
  has-without, has-flag, has-is_empty, has-length, trailing_zeros-first, is_empty-all_false,
  length-without, eq_ne, and_true, and_false,
}
use os.Signal.Pending.{IsValid}
use os.Signal.Frame.{UserMemory, SignalAction, Task}
use os.Signal.Delivery.{
  has_no_effect, scan_loop, restarts, get_pending_signals, check_pending_signal,
  pending_signal_should_restart,
}
use os.Signal.Choice.{deliverable, has-get_pending_signals, length-get_pending_signals}
use mathlib.Core.Path.{ap₂}
use mathlib.Core.Bool.{true≢false}

-- The first signal from `i` on, of `n` signals, that a test selects and whose action has an effect.
unfoldable pub first_effective : ℕ → ℕ → List SignalAction → (ℕ → Bool) → Option (ℕ × SignalAction)
first_effective zero i actions test = none
first_effective (suc n) i actions test =
    let rest = first_effective n (i + 1) actions test in
    if test i
    then elim (get_elem? actions i) [
      | none ↦ none
      | some action ↦ if has_no_effect action i then rest else some (i, action)
    ]
    else rest

-- The answer at the signal that was found
abbrev pub answered : (SignalAction → Bool) → Option (ℕ × SignalAction) → Bool
answered answer none = false
answered answer (some (i, action)) = answer action

-- Tests that agree from `i` on find the same.
first_effective-ext :
    (n i : ℕ) (actions : List SignalAction) (f g : ℕ → Bool)
    → ((j : ℕ) → i ≤ j → f j ≡ g j)
    → first_effective n i actions f ≡ first_effective n i actions g
unfolding first_effective
first_effective-ext zero i actions f g h = refl
first_effective-ext (suc n) i actions f g h =
    ap₂
      (λ b rest.
        if b
        then elim (get_elem? actions i) [
          | none ↦ none
          | some action ↦ if has_no_effect action i then rest else some (i, action)
        ]
        else rest)
      (h i (omega arith))
      (first_effective-ext n (i + 1) actions f g (λ j l. h j (omega (arith, l))))

-- No bit below `i`
abbrev Clear : SignalFlags → ℕ → Type 0
Clear bits i = (j : ℕ) → j < i → has bits j ≡ false

next-Clear : (bits : SignalFlags) (i : ℕ) → Clear bits i → has bits i ≡ false → Clear bits (i + 1)
next-Clear bits i c e j l = elim (ℕ_discrete j i) [
  | yes p ↦ rw p e
  | no n ↦ c j (omega (arith, l, n))
]

has-without-flag_ne :
    (bits : SignalFlags) (i j : ℕ)
    → i < max_sig
    → j ≢ i
    → has (without bits (flag i)) j ≡ has bits j
has-without-flag_ne bits i j l n =
    has-without bits (flag i) j ∙ rw (has-flag i j l, eq_ne n) (sym (and_true (has bits j)))

taken-Clear :
    (bits : SignalFlags) (i : ℕ)
    → i < max_sig
    → Clear bits i
    → Clear (without bits (flag i)) (i + 1)
taken-Clear bits i l c j k = elim (ℕ_discrete j i) [
  | yes p ↦ has-without bits (flag i) j ∙ rw (has-flag i j l, p, ==_refl i) (and_false (has bits i))
  | no n ↦ has-without-flag_ne bits i j l n ∙ c j (omega (arith, k, n))
]

module _ (answer : SignalAction → Bool) (actions : List SignalAction)
    (full : length actions ≡ max_sig) where
  scan_loop_empty :
      (fuel : ℕ) (bits : SignalFlags)
      → is_empty bits ≡ true
      → scan_loop answer fuel actions bits ≡ some false
  unfolding scan_loop
  scan_loop_empty zero bits e = refl
  scan_loop_empty (suc fuel) bits e = rw e refl

  scan_loop_here :
      (fuel : ℕ) (bits : SignalFlags) (action : SignalAction)
      → is_empty bits ≡ false
      → get_elem? actions (trailing_zeros bits) ≡ some action
      → scan_loop answer (suc fuel) actions bits ≡ (
          if has_no_effect action (trailing_zeros bits)
          then scan_loop answer fuel actions (without bits (flag (trailing_zeros bits)))
          else some (answer action))
  unfolding scan_loop
  scan_loop_here fuel bits action e got = rw (e, got) refl

  scan_loop_turn :
      (fuel i : ℕ) (bits : SignalFlags) (action : SignalAction)
      → is_empty bits ≡ false
      → trailing_zeros bits ≡ i
      → get_elem? actions i ≡ some action
      → scan_loop answer (suc fuel) actions bits ≡ (
          if has_no_effect action i
          then scan_loop answer fuel actions (without bits (flag i))
          else some (answer action))
  scan_loop_turn fuel i bits action e tz got =
      rw tz at (scan_loop_here fuel bits action e (rw (sym tz) at got))

  first_effective_turn :
      (n i : ℕ) (test : ℕ → Bool) (action : SignalAction)
      → test i ≡ true
      → get_elem? actions i ≡ some action
      → first_effective (suc n) i actions test ≡ (
          if has_no_effect action i
          then first_effective n (i + 1) actions test
          else some (i, action))
  unfolding first_effective
  first_effective_turn n i test action e got = rw (e, got) refl

  -- Bits from `i` on are what is left, and `n` turns are enough for them.
  scan_loop_lem :
      (n fuel i : ℕ) (bits : SignalFlags)
      → length bits ≡ max_sig
      → i + n ≡ max_sig
      → n ≤ fuel
      → Clear bits i
      → scan_loop answer fuel actions bits
        ≡ some (answered answer (first_effective n i actions (has bits)))
  unfolding first_effective scan_loop
  scan_loop_lem zero fuel i bits l e h c =
      scan_loop_empty fuel bits (is_empty-all_false bits none_left)
    where
      none_left : (j : ℕ) → has bits j ≡ false
      none_left j = elim (Bool-cases (has bits j)) [
        | inl f ↦ c j (omega (arith, l, e, has-length bits j f))
        | inr f ↦ f
      ]
  scan_loop_lem (suc n) zero i bits l e h c = absurd (omega (arith, h))
  scan_loop_lem (suc n) (suc fuel) i bits l e h c = elim (Bool-cases (has bits i)) [
    | inr f ↦
        rw (f, first_effective)
          (scan_loop_lem n (suc fuel) (i + 1) bits l (omega (arith, e)) (omega (arith, h))
            (next-Clear bits i c f))
    | inl f ↦
        let (_, action, _, _, got, _, _) = get_elem?-split actions i (omega (arith, e, full)) in
        let turn =
          scan_loop_turn fuel i bits action (not_empty f) (trailing_zeros-first bits i f c) got in
        let search = first_effective_turn n i (has bits) action f got in
        elim (Bool-cases (has_no_effect action i)) [
          | inl no_effect ↦
              rw no_effect at turn
              ∙ (scan_loop_lem n fuel (i + 1) (without bits (flag i))
                    (length-without bits (flag i) l) (omega (arith, e)) (omega (arith, h))
                    (taken-Clear bits i (omega (arith, e)) c)
                  ∙ ap (λ found. some (answered answer found))
                      (first_effective-ext n (i + 1) actions (has (without bits (flag i)))
                          (has bits)
                          (λ j k. has-without-flag_ne bits i j (omega (arith, e)) (above k))
                        ∙ sym (rw no_effect at search)))
          | inr effect ↦
              rw effect at turn
              ∙ ap (λ found. some (answered answer found)) (sym (rw effect at search))
        ]
  ]
    where
      not_empty : has bits i ≡ true → is_empty bits ≡ false
      not_empty f = elim (Bool-cases (is_empty bits)) [
        | inl g ↦ absurd (true≢false (sym f ∙ has-is_empty bits i g))
        | inr g ↦ g
      ]

      above : {j : ℕ} → i + 1 ≤ j → j ≢ i
      above k p = omega (arith, k, p)

module _ {M : UserMemory} where
  -- For a task with valid pending sets and a table of 64 actions, `check_pending_signal` and
  -- `pending_signal_should_restart` do not panic, and their loops end: they find the least deliverable
  -- signal whose action has an effect; the first says whether there is one, the second whether its
  -- action is a handler with SA_RESTART.
  pub check_pending_signal_lem :
      (t : Task M)
      → IsValid t.pending
      → IsValid t.shared
      → length t.actions ≡ max_sig
      → (check_pending_signal M t
          ≡ some (answered (λ action. true) (first_effective 64 0 t.actions (deliverable t))))
        × (pending_signal_should_restart M t
            ≡ some (answered restarts (first_effective 64 0 t.actions (deliverable t))))
  unfolding check_pending_signal pending_signal_should_restart
  check_pending_signal_lem t v w full = (scanned (λ action. true), scanned restarts)
    where
      scanned :
          (answer : SignalAction → Bool)
          → scan_loop answer 64 t.actions (get_pending_signals M t)
            ≡ some (answered answer (first_effective 64 0 t.actions (deliverable t)))
      scanned answer =
          scan_loop_lem answer t.actions full 64 64 0 (get_pending_signals M t)
            (length-get_pending_signals t v w) (omega arith) (omega arith)
            (λ j l. absurd (omega (arith, l)))
          ∙ ap (λ found. some (answered answer found))
              (first_effective-ext 64 0 t.actions (has (get_pending_signals M t)) (deliverable t)
                (λ j l. has-get_pending_signals t j))
