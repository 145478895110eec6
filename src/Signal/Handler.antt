-- ===== src/Signal/Handler.antt =====
-- Calling and leaving a signal handler: `push_signal_frame` and `restore_signal_context` of
-- os/src/process/signal/frame.rs, `call_signal_handler` of delivery.rs there, and `sys_sigreturn` of
-- os/src/syscall/process.rs.
use os.Base.{
  ℕ, ◌+◌, ◌-◌, ◌/◌, ◌%◌, ◌^◌, Bool, true, false, not, ◌&&◌, ◌||◌, Option, none, some, [], ◌∷◌, ltb,
  ◌==◌, if◌then◌else◌, length, get_or, get_elem?, set,
}
use os.Signal.Flags.{SignalFlags, union}
use os.Signal.Frame.{
  SignalAltStack, no_alt_stack, is_enabled, is_autodisarm, contains_sp, status_for_sp, TrapContext,
  from_trap_ctx, apply_to_trap_ctx, SignalFrame, info_size, context_size, frame_size, UserMemory,
  SignalAction, Task,
}

-- What `call_signal_handler` puts into the registers of the interrupted context; `ret` is the address
-- of the code that a handler returns to.
abbrev pub enter_handler : TrapContext → ℕ → ℕ → ℕ → ℕ → ℕ → TrapContext
enter_handler trap_ctx handler sig info_ptr ucontext_ptr ret = record trap_ctx {
  sepc = handler;
  x =
      set (set (set (set (set trap_ctx.x 10 (sig + 1)) 11 info_ptr) 12 ucontext_ptr) 2 info_ptr) 1
        ret;
}

-- Where `push_signal_frame` starts from, unless the end of the alternate stack passes 2 ^ 64.
abbrev pub user_sp : SignalAltStack → Bool → ℕ → Option ℕ
user_sp alt_stack switching interrupted_sp =
    if switching
    then (if ltb (alt_stack.ss_sp + alt_stack.ss_size) (2 ^ 64)
        then some (alt_stack.ss_sp + alt_stack.ss_size)
        else none)
    else some interrupted_sp

module _ (M : UserMemory) where
  -- The frame is written at `frame_sp`.
  unfoldable pub write_frame :
      Task M → UserMemory.Space M → ℕ → SignalFrame → Bool → Option (ℕ × ℕ) × Task M
  write_frame t mm frame_sp frame disarm =
      let (writable, mm') = UserMemory.ensure_writable M mm frame_sp frame_size in
      let (written, mm'') = UserMemory.write M mm' frame_sp frame in
      if not writable
      then (none, record t { mm = some mm' })
      else (if not written then (none, record t { mm = some mm'' }) else (
        some (frame_sp, frame_sp + info_size),
        record t {
          mm = some mm'';
          signal_user_context_backup = (frame_sp + info_size) ∷ t.signal_user_context_backup;
          signal_alt_stack = (if disarm then no_alt_stack else t.signal_alt_stack);
        },
      ))

  unfoldable pub push_signal_frame : Task M → ℕ → SignalFlags → Bool → Option (ℕ × ℕ) × Task M
  push_signal_frame t sig saved_mask use_alt_stack =
      let interrupted_sp : ℕ = get_or t.trap.x 2 0 in
      let alt_stack : SignalAltStack = t.signal_alt_stack in
      let switching : Bool =
        use_alt_stack && (is_enabled alt_stack && not (contains_sp alt_stack interrupted_sp)) in
      let frame : SignalFrame = record {
        si_signo = sig + 1;
        ucontext = from_trap_ctx t.trap saved_mask (status_for_sp alt_stack interrupted_sp);
      } in
      elim (user_sp alt_stack switching interrupted_sp) [
        | none ↦ (none, t)
        | some sp ↦ if ltb sp frame_size then (none, t) else elim t.mm [
          | none ↦ (none, t)
          | some mm ↦
              let base : ℕ = sp - frame_size in
              write_frame t mm (base - base % 16) frame (switching && is_autodisarm alt_stack)
        ]
      ]

  unfoldable pub run_handler : Task M → SignalAction → ℕ → SignalFlags → SignalFlags → ℕ → Task M
  run_handler t action sig signal saved_mask ret =
      let masked : SignalFlags = union t.blocked action.mask in
      let deferred : SignalFlags =
        if action.flags / 2 ^ 30 % 2 == 0 then union masked signal else masked in
      let t1 : Task M = record t {
        signal_mask_backup = saved_mask ∷ t.signal_mask_backup;
        blocked = deferred;
        trap_ctx_backup = t.trap ∷ t.trap_ctx_backup;
      } in
      let (pushed, t2) = push_signal_frame t1 sig saved_mask (action.flags / 2 ^ 27 % 2 == 1) in
      elim pushed [
        | none ↦ record t2 { term_signal = some (sig + 1) }
        | some (info_ptr, ucontext_ptr) ↦ record t2 {
          trap = enter_handler t2.trap action.handler sig info_ptr ucontext_ptr ret;
        }
      ]

  -- SIGCHLD, SIGURG and SIGWINCH are ignored, SIGSTOP and SIGCONT freeze and thaw, all others kill.
  abbrev pub default_action : Task M → ℕ → Task M
  default_action t sig =
      if sig == 16 || (sig == 22 || sig == 27)
      then t
      else (if sig == 18
          then record t { frozen = true }
          else (if sig == 17
              then record t { frozen = false }
              else record t { term_signal = some (sig + 1) }))

  -- An index out of the table is a panic, `none`.
  unfoldable pub call_signal_handler : Task M → ℕ → SignalFlags → ℕ → Option (Task M)
  call_signal_handler t sig signal ret =
      let saved_mask : SignalFlags = elim t.sigsuspend_saved_mask [
        | some mask ↦ mask
        | none ↦ t.blocked
      ] in
      let t1 : Task M = record t { sigsuspend_saved_mask = none } in
      elim (get_elem? t.actions sig) [
        | none ↦ none
        | some action ↦
            if action.handler == 1
            then some (record t1 { blocked = saved_mask })
            else (if not (action.handler == 0)
                then some (run_handler t1 action sig signal saved_mask ret)
                else some (record (default_action t1 sig) { blocked = saved_mask }))
      ]

  unfoldable pub read_frame : Task M → UserMemory.Space M → ℕ → TrapContext → Option ℕ × Task M
  read_frame t mm ucontext_ptr trap_ctx =
      let (readable, mm') = UserMemory.ensure_readable M mm ucontext_ptr context_size in
      if not readable
      then (none, record t { mm = some mm' })
      else elim (UserMemory.read M mm' ucontext_ptr) [
        | none ↦ (none, record t { mm = some mm' })
        | some user_ctx ↦
            let restored : TrapContext = apply_to_trap_ctx user_ctx trap_ctx in
            (
              some (get_or restored.x 10 0),
              record t {
                mm = some mm';
                blocked = user_ctx.uc_sigmask;
                signal_alt_stack = user_ctx.uc_stack;
                trap = restored;
              },
            )
      ]

  unfoldable pub restore_signal_context : Task M → Option ℕ × Task M
  restore_signal_context t = elim t.signal_user_context_backup [
    | [] ↦ (none, t)
    | ucontext_ptr ∷ contexts ↦
        let t1 : Task M = record t { signal_user_context_backup = contexts } in
        elim t.signal_mask_backup [
          | [] ↦ (none, t1)
          | saved_mask ∷ masks ↦
              let t2 : Task M = record t1 { signal_mask_backup = masks } in
              elim t.trap_ctx_backup [
                | [] ↦ (none, t2)
                | trap_ctx ∷ traps ↦
                    let t3 : Task M = record t2 { trap_ctx_backup = traps } in
                    elim t.mm [
                      | none ↦ (none, t3)
                      | some mm ↦ read_frame t3 mm ucontext_ptr trap_ctx
                    ]
              ]
        ]
  ]

  -- The value of a0, or `none` for EPERM. The two assertions panic where a stack of backups is longer
  -- than another.
  unfoldable pub sys_sigreturn : Task M → Option (Option ℕ × Task M)
  sys_sigreturn t =
      if length t.trap_ctx_backup == length t.signal_mask_backup
        && (length t.trap_ctx_backup == length t.signal_user_context_backup)
      then some (restore_signal_context t)
      else none
