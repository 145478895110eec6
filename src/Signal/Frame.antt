-- ===== src/Signal/Frame.antt =====
-- os/src/process/signal/frame.rs for RISC-V, with `sys_sigreturn` of os/src/syscall/process.rs and the
-- fields of `TaskStructInner` and `TrapContext` that signals use. `ensure_writable_user_range`,
-- `ensure_readable_user_range`, `try_translated_write` and `try_translated_read` of os/src/mm are the
-- operations of `UserMemory`. Floating point registers of the frame are zero and left out.
use os.Base.{
  ℕ, ◌+◌, ◌/◌, ◌%◌, ◌^◌, ◌≡◌, Bool, true, ◌&&◌, Option, some, List, ltb, leb, ◌==◌, if◌then◌else◌,
  get_or, set,
}
use os.Signal.Flags.{SignalFlags, Sigpending}

pub record SignalAltStack : Type 0 where
  pub ss_sp : ℕ
  pub ss_flags : ℕ  -- the bits of an `i32`
  pub ss_size : ℕ

abbrev pub ss_onstack : ℕ
ss_onstack = 1

abbrev pub ss_disable : ℕ
ss_disable = 2

-- `SignalAltStack::default`
abbrev pub no_alt_stack : SignalAltStack
no_alt_stack = record { ss_sp = 0; ss_flags = ss_disable; ss_size = 0 }

abbrev pub is_enabled : SignalAltStack → Bool
is_enabled stack = stack.ss_flags / 2 % 2 == 0

abbrev pub is_autodisarm : SignalAltStack → Bool
is_autodisarm stack = stack.ss_flags / 2 ^ 31 % 2 == 1

abbrev pub contains_sp : SignalAltStack → ℕ → Bool
contains_sp stack sp =
    is_enabled stack
    && (ltb (stack.ss_sp + stack.ss_size) (2 ^ 64)
        && (leb stack.ss_sp sp && ltb sp (stack.ss_sp + stack.ss_size)))

unfoldable pub status_for_sp : SignalAltStack → ℕ → SignalAltStack
status_for_sp stack sp = record stack {
  ss_flags =
      if contains_sp stack sp then ss_onstack else (if is_enabled stack then 0 else ss_disable);
}

-- `x` has the 32 registers, `sepc` is what `get_rt` and `set_rt` access.
pub record TrapContext : Type 0 where
  pub x : List ℕ
  pub sstatus : ℕ
  pub sepc : ℕ
  pub kernel_satp : ℕ
  pub kernel_sp : ℕ
  pub trap_handler : ℕ
  pub hart_id : ℕ

-- `uc_flags` and `uc_link` are 0, as are all words of `uc_sigmask` but the first.
pub record SignalUserContext : Type 0 where
  pub uc_stack : SignalAltStack
  pub uc_sigmask : SignalFlags
  pub gregs : List ℕ

abbrev pub from_trap_ctx : TrapContext → SignalFlags → SignalAltStack → SignalUserContext
from_trap_ctx trap_ctx sigmask alt_stack = record {
  uc_stack = alt_stack;
  uc_sigmask = sigmask;
  gregs = set trap_ctx.x 0 trap_ctx.sepc;
}

abbrev pub apply_to_trap_ctx : SignalUserContext → TrapContext → TrapContext
apply_to_trap_ctx user_ctx trap_ctx = record trap_ctx {
  x = set user_ctx.gregs 0 0;
  sepc = get_or user_ctx.gregs 0 0;
}

-- `info` has no field but `si_signo` that is not 0.
pub record SignalFrame : Type 0 where
  pub si_signo : ℕ
  pub ucontext : SignalUserContext

-- The sizes of `SigInfo`, `SignalUserContext` and `SignalFrame` in bytes
abbrev pub info_size : ℕ
info_size = 128

abbrev pub context_size : ℕ
context_size = 960

abbrev pub frame_size : ℕ
frame_size = 1088

-- A user's address space. Each operation may change it, also where it fails: page faults are served.
-- After a frame is written, its context is readable where it stands, and reads as it was written.
pub record UserMemory : Type 1 where
  pub Space : Type 0
  pub ensure_writable : Space → ℕ → ℕ → Bool × Space
  pub ensure_readable : Space → ℕ → ℕ → Bool × Space
  pub write : Space → ℕ → SignalFrame → Bool × Space
  pub read : Space → ℕ → Option SignalUserContext
  pub readable_after :
      (m : Space) (a : ℕ) (frame : SignalFrame)
      → (write m a frame).0 ≡ true
      → (ensure_readable (write m a frame).1 (a + info_size) context_size).0 ≡ true
  pub read_after :
      (m : Space) (a : ℕ) (frame : SignalFrame)
      → (write m a frame).0 ≡ true
      → read (ensure_readable (write m a frame).1 (a + info_size) context_size).1 (a + info_size)
        ≡ some frame.ucontext

pub record SignalAction : Type 0 where
  pub handler : ℕ
  pub flags : ℕ
  pub mask : SignalFlags

module _ (M : UserMemory) where
  -- What signals use of a task: `shared` is the pending set of its `signal`, `actions` the table of its
  -- `signal_hand`, `trap` the context at `get_trap_cx`.
  pub record Task : Type 0 where
    pub pending : Sigpending
    pub shared : Sigpending
    pub blocked : SignalFlags
    pub sigsuspend_saved_mask : Option SignalFlags
    pub actions : List SignalAction
    pub signal_mask_backup : List SignalFlags
    pub trap_ctx_backup : List TrapContext
    pub signal_user_context_backup : List ℕ
    pub signal_alt_stack : SignalAltStack
    pub trap : TrapContext
    pub mm : Option (UserMemory.Space M)
    pub term_signal : Option ℕ
    pub frozen : Bool
