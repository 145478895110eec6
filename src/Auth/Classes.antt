-- ===== src/Auth/Classes.antt =====
-- One class of a file's mode decides what a task may do with it.
use os.Base.{ℕ, ◌*◌, ◌^◌, ◌≡◌, ◌≢◌, refl, false, arith, ◌==◌, if◌then◌else◌, Bool-cases, inl, inr}
use os.Auth.{
  contains_flag, PermStat, PermSet, Cred, can_read, can_write, can_execute, current_perm_set,
}

-- The three bits of the mode that stand at the octal digit `digit`.
abbrev pub digit_set : ℕ → ℕ → PermSet
digit_set mode digit = record {
  r = contains_flag mode (4 * 8 ^ digit);
  w = contains_flag mode (2 * 8 ^ digit);
  x = contains_flag mode (8 ^ digit);
}

-- The owner's digit for the owner, else the group's for the group, else that of all others.
abbrev pub digit_of : PermStat → ℕ → ℕ → ℕ
digit_of p uid gid = if p.uid == uid then 2 else (if p.gid == gid then 1 else 0)

-- The permissions of a task that is not root are the three bits of one octal digit of the mode: the
-- owner's if the file system uid is the owner, else the group's if the gid is, else the others'.
pub current_perm_set_lem :
    (p : PermStat) (c : Cred)
    → c.fsuid ≢ 0
    → current_perm_set p c ≡ digit_set p.mode (digit_of p c.fsuid c.fsgid)
unfolding current_perm_set can_read can_write can_execute
current_perm_set_lem p c h = elim (Bool-cases (p.uid == c.fsuid)) [
  | inl owner ↦ rw (plain, owner) refl
  | inr e ↦ elim (Bool-cases (p.gid == c.fsgid)) [
    | inl group ↦ rw (plain, e, group) refl
    | inr f ↦ rw (plain, e, f) refl
  ]
]
  where
    plain : (c.fsuid == 0) ≡ false
    plain = ground arith
