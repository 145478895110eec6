-- ===== src/Signal/Choice.antt =====
-- The signal that `handle_signals` of os/src/process/signal/delivery.rs takes.
use os.Base.{
  ℕ, zero, suc, ◌<◌, ◌≤◌, ◌≡◌, ◌⊎◌, inl, inr, refl, sym, ◌∙◌, Bool, true, false, not, ◌&&◌, ◌||◌,
  Option, none, some, ◌==◌, length, arith, Bool-cases,
}
use os.Signal.Flags.{max_sig, SignalFlags, flag, has, without, is_empty, trailing_zeros, Sigpending}
use os.Signal.Bits.{
  has-union, has-without, has-flag, has-is_empty, has-trailing_zeros, has-below_trailing_zeros,
  has-length, contains_flags-flag, length-union, length-without,
}
use os.Signal.Pending.{IsValid, remove-IsValid}
use os.Signal.Frame.{UserMemory, Task}
use os.Signal.Handler.{call_signal_handler}
use os.Signal.Delivery.{unmaskable, raw_signals, get_pending_signals, consume, handle_signals}

has-unmaskable : (i : ℕ) → has unmaskable i ≡ (i == 8 || i == 18)
has-unmaskable i =
    has-union (flag 8) (flag 18) i
    ∙ rw (has-flag 8 i (omega arith), has-flag 18 i (omega arith)) refl

module _ {M : UserMemory} where
  -- Signal i + 1 is pending for the thread or its group, and is not blocked, or is SIGKILL or SIGSTOP.
  abbrev pub deliverable : Task M → ℕ → Bool
  deliverable t i =
      (has t.pending.signals i || has t.shared.signals i)
      && not (has t.blocked i && not (i == 8 || i == 18))

  abbrev pub NoneBelow : Task M → ℕ → Type 0
  NoneBelow t zero = Unit
  NoneBelow t (suc n) = (deliverable t n ≡ false) × NoneBelow t n

  pub has-get_pending_signals :
      (t : Task M) (i : ℕ) → has (get_pending_signals M t) i ≡ deliverable t i
  unfolding get_pending_signals
  has-get_pending_signals t i =
      rw
        (
          has-without (raw_signals M t) (without t.blocked unmaskable) i,
          has-union t.pending.signals t.shared.signals i,
          has-without t.blocked unmaskable i,
          has-unmaskable i,
        )
        refl

  pub length-get_pending_signals :
      (t : Task M)
      → IsValid t.pending
      → IsValid t.shared
      → length (get_pending_signals M t) ≡ max_sig
  unfolding get_pending_signals
  length-get_pending_signals t v w =
      length-without (raw_signals M t) (without t.blocked unmaskable)
        (length-union t.pending.signals t.shared.signals v.0 w.0)

  -- The pending sets `p` and `q` of the thread and the group after signal `sig` + 1 is taken: from the
  -- thread's if it is there, else from the group's.
  abbrev pub Consumed : Task M → ℕ → Sigpending → Sigpending → Type 0
  Consumed t sig p q =
      ((has t.pending.signals sig ≡ true)
        × ((i : ℕ) → has p.signals i ≡ (has t.pending.signals i && not (i == sig)))
        × (q ≡ t.shared))
      ⊎ ((has t.pending.signals sig ≡ false)
          × ((i : ℕ) → has q.signals i ≡ (has t.shared.signals i && not (i == sig)))
          × (p ≡ t.pending))

  consume_lem :
      (t : Task M) (sig : ℕ)
      → sig < max_sig
      → IsValid t.pending
      → IsValid t.shared
      → (p : Sigpending) × (q : Sigpending) × (consume M t sig
          ≡ some (record t { pending = p; shared = q }))
        × Consumed t sig p q
        × IsValid p
        × IsValid q
  unfolding consume
  consume_lem t sig h v w = elim (Bool-cases (has t.pending.signals sig)) [
    | inl e ↦
        let (p, f, k, g) = remove-IsValid t.pending sig h v in
        (
          p,
          t.shared,
          rw (contains_flags-flag t.pending.signals sig h, e, f) refl,
          inl (e, g, refl),
          k,
          w,
        )
    | inr e ↦
        let (q, f, k, g) = remove-IsValid t.shared sig h w in
        (
          t.pending,
          q,
          rw (contains_flags-flag t.pending.signals sig h, e, f) refl,
          inr (e, g, refl),
          v,
          k,
        )
  ]

  none_below : (t : Task M) (n : ℕ) → n ≤ trailing_zeros (get_pending_signals M t) → NoneBelow t n
  none_below t zero h = tt
  none_below t (suc n) h = (
    sym (has-get_pending_signals t n)
        ∙ has-below_trailing_zeros (get_pending_signals M t) n (omega (arith, h)),
    none_below t n (omega (arith, h)),
  )

  -- SIGKILL and SIGSTOP out of the mask
  abbrev pub unmasked : Task M → Task M
  unmasked t = record t { blocked = without t.blocked unmaskable }

  -- The mask that `sigsuspend` put away is back.
  abbrev pub after_suspend : Task M → Task M
  after_suspend t = elim t.sigsuspend_saved_mask [
    | none ↦ t
    | some saved_mask ↦ record t { blocked = saved_mask; sigsuspend_saved_mask = none }
  ]

  -- `handle_signals` of a task whose pending sets are valid either finds no deliverable signal, and only
  -- restores masks; or takes the least one out of one pending set, of the thread's before the
  -- group's, leaves both valid, and goes on to the action of this signal.
  pub handle_signals_lem :
      (t : Task M) (ret : ℕ)
      → IsValid t.pending
      → IsValid t.shared
      → (((i : ℕ) → deliverable t i ≡ false)
          × (handle_signals M t ret ≡ some (after_suspend (unmasked t))))
        ⊎ ((sig : ℕ) × (p : Sigpending) × (q : Sigpending) × (deliverable t sig ≡ true)
            × NoneBelow t sig
            × Consumed t sig p q
            × IsValid p
            × IsValid q
            × (handle_signals M t ret
                ≡ call_signal_handler M
                    (record (unmasked t) { pending = p; shared = q })
                    sig
                    (flag sig)
                    ret))
  unfolding handle_signals get_pending_signals
  handle_signals_lem t ret v w = elim (Bool-cases (is_empty (get_pending_signals M t))) [
    | inl e ↦ inl (
      λ i. sym (has-get_pending_signals t i) ∙ has-is_empty (get_pending_signals M t) i e,
      rw e (restored t.sigsuspend_saved_mask),
    )
    | inr e ↦
        let found = has-trailing_zeros (get_pending_signals M t) e in
        let (p, q, f, c, k, l) =
          consume_lem (unmasked t) (trailing_zeros (get_pending_signals M t))
            (rw (length-get_pending_signals t v w) at (
              has-length (get_pending_signals M t) (trailing_zeros (get_pending_signals M t))
                found))
            v w in
        inr (
          trailing_zeros (get_pending_signals M t),
          p,
          q,
          sym (has-get_pending_signals t (trailing_zeros (get_pending_signals M t))) ∙ found,
          none_below t (trailing_zeros (get_pending_signals M t)) (omega arith),
          c,
          k,
          l,
          rw (e, f) refl,
        )
  ]
    where
      restored :
          (o : Option SignalFlags)
          → elim o [
            | none ↦ some (unmasked t)
            | some saved_mask ↦
                some (record t { blocked = saved_mask; sigsuspend_saved_mask = none })
          ]
            ≡ some (elim o [
              | none ↦ unmasked t
              | some saved_mask ↦ record t { blocked = saved_mask; sigsuspend_saved_mask = none }
            ])
      restored none = refl
      restored (some m) = refl
