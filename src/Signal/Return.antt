-- ===== src/Signal/Return.antt =====
-- A signal handler is entered and left: `call_signal_handler` of os/src/process/signal/delivery.rs, then
-- `sys_sigreturn` of os/src/syscall/process.rs.
use os.Base.{
  ℕ, suc, ◌+◌, ◌-◌, ◌/◌, ◌%◌, ◌^◌, ◌≡◌, ◌≢◌, ◌⊎◌, inl, inr, refl, sym, Bool, true, not, ◌&&◌,
  Option, none, some, ◌∷◌, ◌==◌, ltb, if◌then◌else◌, length, get_or, get_elem?, set, arith,
  Bool-cases, if_cases, option_cases, set_twice, get_or-set_self, get_or-set_ne, ==_refl,
}
use mathlib.Core.Path.{subst}
use os.Signal.Flags.{SignalFlags, union}
use os.Signal.Bits.{eq_ne}
use os.Signal.Frame.{
  SignalAltStack, no_alt_stack, is_enabled, contains_sp, is_autodisarm, status_for_sp, TrapContext,
  from_trap_ctx, SignalFrame, info_size, frame_size, UserMemory, SignalAction, Task,
}
use os.Signal.Handler.{
  enter_handler, user_sp, write_frame, push_signal_frame, run_handler, call_signal_handler,
  read_frame, restore_signal_context, sys_sigreturn,
}

module _ {M : UserMemory} where
  -- The frame stands at `a`.
  abbrev Written : Task M → UserMemory.Space M → ℕ → SignalFrame → SignalAltStack → Task M
  Written t mm a frame stack = record t {
    mm = some (UserMemory.write M mm a frame).1;
    signal_user_context_backup = (a + info_size) ∷ t.signal_user_context_backup;
    signal_alt_stack = stack;
  }

  -- Nothing was pushed, or the frame is written and its context pointer kept.
  abbrev Outcome : Task M → SignalFrame → Option (ℕ × ℕ) × Task M → Type 0
  Outcome t frame r =
      (r.0 ≡ none)
      ⊎ ((mm : UserMemory.Space M) × (a : ℕ) × (stack : SignalAltStack) × ((UserMemory.write M mm a
              frame).0
            ≡ true)
          × (r ≡ (some (a, a + info_size), Written t mm a frame stack)))

  write_frame-Outcome :
      (t : Task M) (mm : UserMemory.Space M) (a : ℕ) (frame : SignalFrame) (disarm : Bool)
      → Outcome t frame (write_frame M t mm a frame disarm)
  unfolding write_frame
  write_frame-Outcome t mm a frame disarm =
      elim (Bool-cases (UserMemory.ensure_writable M mm a frame_size).0) [
        | inr e ↦ inl (rw (e, write_frame) refl)
        | inl e ↦ elim (Bool-cases (UserMemory.write M mm' a frame).0) [
          | inr f ↦ inl (rw (e, f) refl)
          | inl f ↦
              inr (mm', a, (if disarm then no_alt_stack else t.signal_alt_stack), f, rw (e, f) refl)
        ]
      ]
    where
      mm' : UserMemory.Space M
      mm' = (UserMemory.ensure_writable M mm a frame_size).1

  abbrev pub frame_of : Task M → ℕ → SignalFlags → SignalFrame
  frame_of t sig saved_mask = record {
    si_signo = sig + 1;
    ucontext =
        from_trap_ctx t.trap saved_mask (status_for_sp t.signal_alt_stack (get_or t.trap.x 2 0));
  }

  push_signal_frame-Outcome :
      (t : Task M) (sig : ℕ) (saved_mask : SignalFlags) (use_alt_stack : Bool)
      → Outcome t (frame_of t sig saved_mask) (push_signal_frame M t sig saved_mask use_alt_stack)
  unfolding push_signal_frame
  push_signal_frame-Outcome t sig saved_mask use_alt_stack =
      option_cases P (user_sp t.signal_alt_stack switching (get_or t.trap.x 2 0)) (inl refl) (λ sp.
        if_cases P (ltb sp frame_size) (λ _. inl refl)
          (λ _. option_cases P t.mm (inl refl) (λ mm.
            write_frame-Outcome t mm (sp - frame_size - (sp - frame_size) % 16)
              (frame_of t sig saved_mask) (switching && is_autodisarm t.signal_alt_stack))))
    where
      P : Option (ℕ × ℕ) × Task M → Type 0
      P = Outcome t (frame_of t sig saved_mask)

      switching : Bool
      switching =
          use_alt_stack
          && (is_enabled t.signal_alt_stack
              && not (contains_sp t.signal_alt_stack (get_or t.trap.x 2 0)))

  -- The mask to come back to: the one that `sigsuspend` put away, or the present one.
  abbrev pub saved_mask_of : Task M → SignalFlags
  saved_mask_of t = elim t.sigsuspend_saved_mask [ some mask ↦ mask | none ↦ t.blocked ]

  -- The task as it was, but that x0 reads 0, the saved mask is back, and the alternate stack has the flags
  -- of `status_for_sp`.
  abbrev pub Resumed : Task M → UserMemory.Space M → Task M
  Resumed t mm = record t {
    trap = record t.trap { x = set t.trap.x 0 0 };
    blocked = saved_mask_of t;
    sigsuspend_saved_mask = none;
    signal_alt_stack = status_for_sp t.signal_alt_stack (get_or t.trap.x 2 0);
    mm = some mm;
  }

  -- A task on its way into a handler: what `run_handler` keeps before it pushes the frame.
  abbrev Entering : Task M → SignalFlags → Task M
  Entering t deferred = record t {
    sigsuspend_saved_mask = none;
    signal_mask_backup = saved_mask_of t ∷ t.signal_mask_backup;
    blocked = deferred;
    trap_ctx_backup = t.trap ∷ t.trap_ctx_backup;
  }

  sys_sigreturn-Written :
      (t : Task M) (deferred b : SignalFlags) (mm : UserMemory.Space M) (a sig : ℕ)
      (stack s : SignalAltStack) (c : TrapContext)
      → length t.trap_ctx_backup ≡ length t.signal_mask_backup
      → length t.trap_ctx_backup ≡ length t.signal_user_context_backup
      → length t.trap.x ≡ 32
      → (UserMemory.write M mm a (frame_of t sig (saved_mask_of t))).0 ≡ true
      → sys_sigreturn M
          (record (Written (Entering t deferred) mm a (frame_of t sig (saved_mask_of t)) stack) {
            trap = c;
            blocked = b;
            signal_alt_stack = s;
          })
        ≡ some (
          some (get_or t.trap.x 10 0),
          Resumed t
              (UserMemory.ensure_readable M
                (UserMemory.write M mm a (frame_of t sig (saved_mask_of t))).1
                (a + info_size)
                960).1,
        )
  unfolding sys_sigreturn restore_signal_context read_frame
  sys_sigreturn-Written t deferred b mm a sig stack s c l k h w =
      rw
        (
          sym l,
          sym k,
          ==_refl (suc (length t.trap_ctx_backup)),
          UserMemory.readable_after M mm a (frame_of t sig (saved_mask_of t)) w,
          UserMemory.read_after M mm a (frame_of t sig (saved_mask_of t)) w,
          set_twice t.trap.x 0 t.trap.sepc 0,
          get_or-set_self t.trap.x 0 t.trap.sepc 0 (omega (arith, h)),
          get_or-set_ne t.trap.x 0 10 0 0 (λ e. absurd (omega (arith, e))),
        )
        refl

  -- A signal with a handler, whose number stands in the table: while the three stacks of backups have the
  -- same height, its delivery either marks the task as killed by the signal, or goes to the handler;
  -- whatever the handler leaves in the registers, the mask and the alternate stack, if it does not
  -- change the user's memory then `sys_sigreturn` does not panic, returns the interrupted a0, and
  -- brings the interrupted registers, the saved mask and the three stacks back.
  pub call_signal_handler-sys_sigreturn :
      (t : Task M) (sig : ℕ) (signal : SignalFlags) (ret : ℕ) (action : SignalAction)
      (c : TrapContext) (b : SignalFlags) (s : SignalAltStack)
      → get_elem? t.actions sig ≡ some action
      → action.handler ≢ 0
      → action.handler ≢ 1
      → length t.trap_ctx_backup ≡ length t.signal_mask_backup
      → length t.trap_ctx_backup ≡ length t.signal_user_context_backup
      → length t.trap.x ≡ 32
      → (t' : Task M) × (call_signal_handler M t sig signal ret ≡ some t')
        × ((t'.term_signal ≡ some (sig + 1))
            ⊎ ((mm : UserMemory.Space M) × (t'.trap.sepc ≡ action.handler)
                × (sys_sigreturn M (record t' { trap = c; blocked = b; signal_alt_stack = s })
                    ≡ some (some (get_or t.trap.x 10 0), Resumed t mm))))
  unfolding call_signal_handler run_handler
  call_signal_handler-sys_sigreturn t sig signal ret action c b s got n0 n1 l k h = (
    run_handler M (record t { sigsuspend_saved_mask = none }) action sig signal (saved_mask_of t)
        ret,
    rw (got, call_signal_handler, eq_ne n1, eq_ne n0) refl,
    elim (push_signal_frame-Outcome (Entering t deferred) sig (saved_mask_of t) on_alt_stack) [
      | inl e ↦ inl (rw (e, run_handler) refl)
      | inr (mm, a, stack, w, e) ↦ inr (
        (UserMemory.ensure_readable M (UserMemory.write M mm a (frame_of t sig (saved_mask_of t))).1
            (a + info_size) 960).1,
        rw (e, run_handler) refl,
        subst
            (λ r.
              sys_sigreturn M (record (finish r) { trap = c; blocked = b; signal_alt_stack = s })
              ≡ some (
                some (get_or t.trap.x 10 0),
                Resumed t
                    (UserMemory.ensure_readable M
                      (UserMemory.write M mm a (frame_of t sig (saved_mask_of t))).1 (a + info_size)
                      960).1,
              ))
            (sym e) (sys_sigreturn-Written t deferred b mm a sig stack s c l k h w),
      )
    ],
  )
    where
      deferred : SignalFlags
      deferred =
          if action.flags / 2 ^ 30 % 2 == 0
          then union (union t.blocked action.mask) signal
          else union t.blocked action.mask

      on_alt_stack : Bool
      on_alt_stack = action.flags / 2 ^ 27 % 2 == 1

      finish : Option (ℕ × ℕ) × Task M → Task M
      finish (pushed, t2) = elim pushed [
        | none ↦ record t2 { term_signal = some (sig + 1) }
        | some (info_ptr, ucontext_ptr) ↦ record t2 {
          trap = enter_handler t2.trap action.handler sig info_ptr ucontext_ptr ret;
        }
      ]
