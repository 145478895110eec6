-- ===== src/Auth.antt =====
-- os/src/auth/mod.rs and os/src/process/task/cred.rs: the permissions of a file, and the identities of
-- a task. `contains` of the flags is the bit test of the bitflags library.
pub mod Classes
mod Examples
use Prim.Native.Nat.{bit_and}
use os.Base.{ℕ, Bool, true, false, ◌==◌, if◌then◌else◌}

-- `FileMode::contains`
abbrev pub contains_flag : ℕ → ℕ → Bool
contains_flag mode flag = bit_and mode flag == flag

pub record PermStat : Type 0 where
  pub mode : ℕ
  pub uid : ℕ
  pub gid : ℕ

pub record PermSet : Type 0 where
  pub r : Bool
  pub w : Bool
  pub x : Bool

unfoldable pub can_read : PermStat → ℕ → ℕ → Bool
can_read p uid gid =
    if uid == 0
    then true
    else (if p.uid == uid
        then contains_flag p.mode 0o400
        else (if p.gid == gid then contains_flag p.mode 0o040 else contains_flag p.mode 0o004))

unfoldable pub can_write : PermStat → ℕ → ℕ → Bool
can_write p uid gid =
    if uid == 0
    then true
    else (if p.uid == uid
        then contains_flag p.mode 0o200
        else (if p.gid == gid then contains_flag p.mode 0o020 else contains_flag p.mode 0o002))

unfoldable pub can_execute : PermStat → ℕ → ℕ → Bool
can_execute p uid gid =
    if uid == 0
    then true
    else (if p.uid == uid
        then contains_flag p.mode 0o100
        else (if p.gid == gid then contains_flag p.mode 0o010 else contains_flag p.mode 0o001))

abbrev pub file_type : ℕ → ℕ
file_type mode = bit_and mode 0o170000

pub is_regular_file : ℕ → Bool
is_regular_file mode = file_type mode == 0o100000

pub is_dir : ℕ → Bool
is_dir mode = file_type mode == 0o040000

pub is_symlink : ℕ → Bool
is_symlink mode = file_type mode == 0o120000

pub record Cred : Type 0 where
  pub uid : ℕ
  pub gid : ℕ
  pub euid : ℕ
  pub egid : ℕ
  pub suid : ℕ
  pub sgid : ℕ
  pub fsuid : ℕ
  pub fsgid : ℕ

unfoldable pub set_ruid : Cred → ℕ → Cred
set_ruid c uid = record c { uid = uid }

unfoldable pub set_uid : Cred → ℕ → Cred
set_uid c uid = record c { uid = uid; euid = uid; fsuid = uid }

unfoldable pub set_gid : Cred → ℕ → Cred
set_gid c gid = record c { gid = gid; egid = gid; fsgid = gid }

unfoldable pub set_euid : Cred → ℕ → Cred
set_euid c euid = record c { euid = euid; fsuid = euid }

unfoldable pub set_fsuid : Cred → ℕ → Cred
set_fsuid c fsuid = record c { fsuid = fsuid }

unfoldable pub set_fsgid : Cred → ℕ → Cred
set_fsgid c fsgid = record c { fsgid = fsgid }

-- `current_perm_set`, for the credentials of the current task.
unfoldable pub current_perm_set : PermStat → Cred → PermSet
unfolding can_read can_write can_execute
current_perm_set p c = record {
  r = can_read p c.fsuid c.fsgid;
  w = can_write p c.fsuid c.fsgid;
  x = can_execute p c.fsuid c.fsgid;
}
