-- ===== src/Daemon/Result.antt =====
-- When `become_daemon` returns 0.
use gemtek_sw_training.Prelude.{
  if◌then◌else◌, ℕ, ◌≡◌, ◌↔◌, ◌⊎◌, true, false, not, pos, negsuc, eq_ℤ, arith,
}
use gemtek_sw_training.Daemon.{
  has_flag, bd_no_chdir, bd_no_close_files, bd_no_reopen_std_fds, bd_no_umask0, Calls, Daemon,
  returns, reopen, max_fd, settle, fork_switch, become_daemon,
}

-- The calls of the child of the child that succeed.
pub record Succeeds (flags : ℕ) (c : Calls) : Type 0 where
  pub first_child : eq_ℤ c.fork1 (pos 0) ≡ true
  pub session : eq_ℤ c.sid (negsuc 0) ≡ false
  pub second_child : eq_ℤ c.fork2 (pos 0) ≡ true
  pub streams :
      (has_flag flags bd_no_reopen_std_fds ≡ true)
      ⊎ ((eq_ℤ c.opened (pos 0) ≡ true)
          × (eq_ℤ c.dup_out (pos 1) ≡ true)
          × (eq_ℤ c.dup_err (pos 2) ≡ true))

-- A process that was forked twice, in its own session, with what the flags ask for.
pub record IsDaemon (flags : ℕ) (c : Calls) (d : Daemon) : Type 0 where
  pub orphan : d.forks ≡ 2
  pub in_session : d.new_session ≡ true
  pub umask : d.umask_cleared ≡ not (has_flag flags bd_no_umask0)
  pub root : d.at_root ≡ not (has_flag flags bd_no_chdir)
  pub closed : d.closed_below ≡ (if has_flag flags bd_no_close_files then 0 else max_fd c.open_max)
  pub streams : d.silenced ≡ (if has_flag flags bd_no_reopen_std_fds then 0 else 3)

returned-Succeeds :
    (flags : ℕ) (c : Calls) (d : Daemon)
    → become_daemon flags c ≡ returns (pos 0) d
    → Succeeds flags c × IsDaemon flags c d
unfolding become_daemon fork_switch settle reopen
returned-Succeeds flags c d e = ground arith

final : ℕ → Calls → Daemon
final flags c = record {
  new_session = true;
  forks = 2;
  umask_cleared = not (has_flag flags bd_no_umask0);
  at_root = not (has_flag flags bd_no_chdir);
  closed_below = if has_flag flags bd_no_close_files then 0 else max_fd c.open_max;
  silenced = if has_flag flags bd_no_reopen_std_fds then 0 else 3;
}

Succeeds-returned :
    (flags : ℕ) (c : Calls)
    → Succeeds flags c
    → become_daemon flags c ≡ returns (pos 0) (final flags c)
unfolding become_daemon fork_switch settle reopen final
Succeeds-returned flags c h = ground arith

-- `become_daemon` returns 0 exactly in the child of the child, if `setsid` and, unless the flags leave
-- the standard streams alone, `open` and both `dup2` succeed. The process is then in a session of its
-- own, and the mask, the directory, the descriptors and the streams are as the flags ask.
pub become_daemon_iff :
    (flags : ℕ) (c : Calls)
    → ((d : Daemon) × (become_daemon flags c ≡ returns (pos 0) d) × IsDaemon flags c d)
      ↔ Succeeds flags c
become_daemon_iff flags c = (
  λ r. (returned-Succeeds flags c r.0 r.1).0,
  λ h.
      (let e = Succeeds-returned flags c h in
        (final flags c, e, (returned-Succeeds flags c (final flags c) e).1)),
)
