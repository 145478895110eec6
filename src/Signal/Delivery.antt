-- ===== src/Signal/Delivery.antt =====
-- os/src/process/signal/delivery.rs: which pending signal is taken, and whether one is worth waking for.
use os.Base.{
  ℕ, zero, suc, ◌/◌, ◌%◌, ◌^◌, Bool, true, false, ◌&&◌, ◌||◌, Option, none, some, List, ◌==◌,
  if◌then◌else◌, get_elem?,
}
use os.Signal.Flags.{
  max_sig, SignalFlags, flag, union, without, is_empty, contains_flags, trailing_zeros, insert,
  remove,
}
use os.Signal.Frame.{UserMemory, SignalAction, Task}
use os.Signal.Handler.{call_signal_handler}

-- SIGKILL | SIGSTOP
abbrev pub unmaskable : SignalFlags
unmaskable = union (flag 8) (flag 18)

-- A pending signal with this action stays without effect: SIG_IGN, or SIG_DFL of SIGCHLD, SIGURG, SIGWINCH.
abbrev pub has_no_effect : SignalAction → ℕ → Bool
has_no_effect action sig =
    action.handler == 1 || (action.handler == 0 && (sig == 16 || (sig == 22 || sig == 27)))

-- The loop of `check_pending_signal` and of `pending_signal_should_restart`: it takes the lowest bit out
-- of `bits` in each turn, and answers at the first signal that has an effect. An index out of the
-- table is a panic, `none`.
unfoldable pub scan_loop : (SignalAction → Bool) → ℕ → List SignalAction → SignalFlags → Option Bool
scan_loop answer zero actions bits = some false
scan_loop answer (suc fuel) actions bits =
    let sig : ℕ = trailing_zeros bits in
    let rest = scan_loop answer fuel actions (without bits (flag sig)) in
    if is_empty bits then some false else elim (get_elem? actions sig) [
      | none ↦ none
      | some action ↦ if has_no_effect action sig then rest else some (answer action)
    ]

-- SIG_DFL, or whether SA_RESTART is set
abbrev pub restarts : SignalAction → Bool
restarts action = if action.handler == 0 then false else action.flags / 2 ^ 28 % 2 == 1

module _ (M : UserMemory) where
  abbrev pub has_pending_sigkill : Task M → Bool
  has_pending_sigkill t =
      contains_flags t.pending.signals (flag 8) || contains_flags t.shared.signals (flag 8)

  unfoldable pub current_add_signal : Task M → SignalFlags → Option (Task M)
  current_add_signal t signal = elim (insert t.pending signal) [
    | none ↦ none
    | some p ↦ some (record t { pending = p })
  ]

  abbrev pub raw_signals : Task M → SignalFlags
  raw_signals t = union t.pending.signals t.shared.signals

  unfoldable pub get_pending_signals : Task M → SignalFlags
  get_pending_signals t = without (raw_signals t) (without t.blocked unmaskable)

  unfoldable pub check_pending_signal : Task M → Option Bool
  check_pending_signal t = scan_loop (λ action. true) max_sig t.actions (get_pending_signals t)

  unfoldable pub pending_signal_should_restart : Task M → Option Bool
  pending_signal_should_restart t = scan_loop restarts max_sig t.actions (get_pending_signals t)

  -- The signal is taken from the thread, or from the thread group.
  unfoldable pub consume : Task M → ℕ → Option (Task M)
  consume t sig =
      if contains_flags t.pending.signals (flag sig)
      then elim (remove t.pending (flag sig)) [
        | none ↦ none
        | some p ↦ some (record t { pending = p })
      ]
      else elim (remove t.shared (flag sig)) [
        | none ↦ none
        | some p ↦ some (record t { shared = p })
      ]

  -- `ret` is the address that a handler returns to; `none` is a panic.
  unfoldable pub handle_signals : Task M → ℕ → Option (Task M)
  handle_signals t ret =
      let t1 : Task M = record t { blocked = without t.blocked unmaskable } in
      let pending : SignalFlags = without (raw_signals t1) t1.blocked in
      let sig : ℕ = trailing_zeros pending in
      if is_empty pending
      then elim t1.sigsuspend_saved_mask [
        | none ↦ some t1
        | some saved_mask ↦ some (record t1 { blocked = saved_mask; sigsuspend_saved_mask = none })
      ]
      else elim (consume t1 sig) [
        | none ↦ none
        | some t2 ↦ call_signal_handler M t2 sig (flag sig) ret
      ]
