-- ===== src/Daemon.antt =====
-- 03-Processes-And-Threads/01-Daemons/SystemV/src/become_daemon.c: what the process becomes, from the
-- flags and from what the system calls return.
pub mod Result
pub mod LogUser
pub mod Log
use gemtek_sw_training.Prelude.{
  ◌==◌, if◌then◌else◌, ℕ, ◌/◌, ◌%◌, Bool, true, false, not, ℤ, pos, negsuc, pos_part, eq_ℤ,
}

-- The bit of `flags` with this value.
abbrev pub has_flag : ℕ → ℕ → Bool
has_flag flags bit = (flags / bit) % 2 == 1

abbrev pub bd_no_chdir : ℕ
bd_no_chdir = 1

abbrev pub bd_no_close_files : ℕ
bd_no_close_files = 2

abbrev pub bd_no_reopen_std_fds : ℕ
bd_no_reopen_std_fds = 4

abbrev pub bd_no_umask0 : ℕ
bd_no_umask0 = 8

abbrev pub bd_max_close : ℕ
bd_max_close = 8192

-- What the system calls return: the two forks, `setsid`, `sysconf`, `open` and the two `dup2`.
pub record Calls : Type 0 where
  pub fork1 : ℤ
  pub sid : ℤ
  pub fork2 : ℤ
  pub open_max : ℤ
  pub opened : ℤ
  pub dup_out : ℤ
  pub dup_err : ℤ

-- What the process has become: whether it is in a new session, how often it was forked, what was
-- reset, the number below which descriptors were closed, and how many of the three standard streams
-- stand for /dev/null.
pub record Daemon : Type 0 where
  pub new_session : Bool
  pub forks : ℕ
  pub umask_cleared : Bool
  pub at_root : Bool
  pub closed_below : ℕ
  pub silenced : ℕ

pub data Outcome : Type 0 where
  exits : Outcome
  returns : ℤ → Daemon → Outcome

-- `BD_NO_REOPEN_STD_FDS` and behind it
unfoldable pub reopen : ℕ → Calls → Daemon → Outcome
reopen flags c d =
    if has_flag flags bd_no_reopen_std_fds
    then returns (pos 0) d
    else if not (eq_ℤ c.opened (pos 0))
    then returns (negsuc 0) d
    else if not (eq_ℤ c.dup_out (pos 1))
    then returns (negsuc 1) (record d { silenced = 1 })
    else if not (eq_ℤ c.dup_err (pos 2))
    then returns (negsuc 2) (record d { silenced = 2 })
    else returns (pos 0) (record d { silenced = 3 })

-- `maxfd` as the bound of the loop that closes.
unfoldable pub max_fd : ℤ → ℕ
max_fd open_max = if eq_ℤ open_max (negsuc 0) then bd_max_close else pos_part open_max

-- Behind the second fork, in the child.
unfoldable pub settle : ℕ → Calls → Daemon → Outcome
unfolding reopen max_fd
settle flags c d = reopen flags c (record d {
  umask_cleared = not (has_flag flags bd_no_umask0);
  at_root = not (has_flag flags bd_no_chdir);
  closed_below = if has_flag flags bd_no_close_files then 0 else max_fd c.open_max;
})

-- `switch (fork())`: an error, the child, or the parent.
unfoldable pub fork_switch : ℤ → Daemon → Outcome → Outcome
fork_switch pid d child =
    if eq_ℤ pid (negsuc 0) then returns (negsuc 0) d else if eq_ℤ pid (pos 0) then child else exits

abbrev pub started : ℕ → Bool → Daemon
started forks new_session = record {
  new_session = new_session;
  forks = forks;
  umask_cleared = false;
  at_root = false;
  closed_below = 0;
  silenced = 0;
}

unfoldable pub become_daemon : ℕ → Calls → Outcome
unfolding fork_switch settle
become_daemon flags c = fork_switch c.fork1 (started 0 false) (
    if eq_ℤ c.sid (negsuc 0)
    then returns (negsuc 0) (started 1 false)
    else fork_switch c.fork2 (started 1 true) (settle flags c (started 2 true)))
