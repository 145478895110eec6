-- ===== src/Auth/Examples.antt =====
-- The theorem on permissions, applied to a file of user 1000.
use os.Auth.{PermStat, Cred}

abbrev letter : PermStat
letter = record { mode = 0o640; uid = 1000; gid = 100 }

abbrev colleague : Cred
colleague = record {
  uid = 1001;
  gid = 100;
  euid = 1001;
  egid = 100;
  suid = 1001;
  sgid = 100;
  fsuid = 1001;
  fsgid = 100;
}
