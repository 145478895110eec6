-- ===== src/Signal/Examples.antt =====
-- A task with one pending signal, and a memory that keeps the last frame.
use os.Base.{
  ℕ, ◌+◌, ◌≡◌, ◌⊎◌, refl, sym, ◌∙◌, true, false, ◌||◌, Option, none, some, [], ◌∷◌, ◌==◌,
  if◌then◌else◌, replicate, length-replicate, arith, ==_refl, contains,
}
use os.Signal.Flags.{flag, empty, has, number, Sigpending, new_pending, insert, remove}
use os.Signal.Bits.{has-flag, has-empty, length-flag}
use os.Signal.Pending.{IsValid}
use os.Signal.Frame.{
  no_alt_stack, TrapContext, SignalUserContext, info_size, UserMemory, SignalAction, Task,
}
use os.Signal.Handler.{call_signal_handler}
use os.Signal.Delivery.{
  restarts, check_pending_signal, pending_signal_should_restart, handle_signals,
}
use os.Signal.Choice.{deliverable, NoneBelow, Consumed, unmasked, after_suspend, handle_signals_lem}
use os.Signal.Wake.{answered, first_effective, check_pending_signal_lem}

-- `number` of no signal runs into the shift by 64.
number-empty : number empty ≡ none
unfolding number os.Signal.Flags.number_from os.Signal.Flags.contains_flags os.Signal.Flags.is_empty
    os.Signal.Flags.without replicate
number-empty = refl

-- Signal 3
abbrev quit_pending : Sigpending
quit_pending = record { queue = 3 ∷ []; signals = flag 2 }

quit_pending-IsValid : IsValid quit_pending
unfolding contains
quit_pending-IsValid = (
  length-flag 2,
  λ i.
      let three : (3 == i + 1 || false) ≡ (i == 2) = ground arith in
      three ∙ sym (has-flag 2 i (omega arith)),
)

new_pending-IsValid : IsValid new_pending
unfolding contains
new_pending-IsValid = (length-replicate 64 false, λ i. sym (has-empty i))

abbrev last_context : Option (ℕ × SignalUserContext) → ℕ → Option SignalUserContext
last_context none a = none
last_context (some (b, ucontext)) a = if b == a then some ucontext else none

abbrev memory : UserMemory
memory = record {
  Space = Option (ℕ × SignalUserContext);
  ensure_writable = λ m a n. (true, m);
  ensure_readable = λ m a n. (true, m);
  write = λ m a frame. (true, some (a + info_size, frame.ucontext));
  read = last_context;
  readable_after = λ m a frame e. refl;
  read_after = λ m a frame e. rw (==_refl (a + info_size)) refl;
}

abbrev context : TrapContext
context = record {
  x = replicate 32 4096;
  sstatus = 0;
  sepc = 65536;
  kernel_satp = 0;
  kernel_sp = 0;
  trap_handler = 0;
  hart_id = 0;
}

abbrev handled : SignalAction
handled = record { handler = 131072; flags = 0; mask = empty }

abbrev task : Task memory
task = record {
  pending = new_pending;
  shared = quit_pending;
  blocked = flag 8;
  sigsuspend_saved_mask = none;
  actions = replicate 64 handled;
  signal_mask_backup = [];
  trap_ctx_backup = [];
  signal_user_context_backup = [];
  signal_alt_stack = no_alt_stack;
  trap = context;
  mm = some none;
  term_signal = none;
  frozen = false;
}

handle_signals_lem_example :
    (((i : ℕ) → deliverable task i ≡ false)
      × (handle_signals memory task 0 ≡ some (after_suspend (unmasked task))))
    ⊎ ((sig : ℕ) × (p : Sigpending) × (q : Sigpending) × (deliverable task sig ≡ true)
        × NoneBelow task sig
        × Consumed task sig p q
        × IsValid p
        × IsValid q
        × (handle_signals memory task 0
            ≡ call_signal_handler memory
                (record (unmasked task) { pending = p; shared = q })
                sig
                (flag sig)
                0))
handle_signals_lem_example = handle_signals_lem task 0 new_pending-IsValid quit_pending-IsValid

check_pending_signal_lem_example :
    (check_pending_signal memory task
      ≡ some (answered (λ action. true) (first_effective 64 0 task.actions (deliverable task))))
    × (pending_signal_should_restart memory task
        ≡ some (answered restarts (first_effective 64 0 task.actions (deliverable task))))
check_pending_signal_lem_example =
    check_pending_signal_lem task new_pending-IsValid quit_pending-IsValid
      (length-replicate 64 handled)
