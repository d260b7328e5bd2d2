-- ===== src/Startup/Privileges.antt =====
-- The end of the configuration in init_all: the daemon leaves root, on Linux.
use zprd.Prelude.{ℕ, List, codes, is_empty, if◌then◌else◌}
use zprd.Startup.{
  getpwnam, getgrnam, setgroups, setregid, setreuid, Program, done, ask, need, ◌>>=◌, ◌>>◌,
}

abbrev pub nogroup : List ℕ
nogroup = codes "nogroup"

-- The result of setgroups is not looked at. The answers of getpwnam and getgrnam are the numbers
-- of the user and of the group.
unfoldable pub drop_privileges : List ℕ → Program ℕ
drop_privileges run_as_user = if is_empty run_as_user then done 0 else do
  newuid ← need (getpwnam run_as_user)
  newgid ← need (getgrnam nogroup)
  ask (setgroups newgid)
  need (setregid newgid newgid)
  need (setreuid newuid newuid)
