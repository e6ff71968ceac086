-- ===== src/Daemon/LogUser.antt =====
-- 03-Processes-And-Threads/01-Daemons/SystemV: src/log_user.c, and the loop of main.c around it.
use gemtek_sw_training.Prelude.{
  ◌==◌, if◌then◌else◌, length, take, ℕ, ◌-◌, Bool, ℤ, pos, negsuc, eq_ℤ, Option, none, some, List,
  [], ◌∷◌, ◌++◌, Bytes, codes,
}
use gemtek_sw_training.Daemon.{Calls, Outcome, exits, returns, become_daemon}

-- What `getutent` returns, and the text of `ctime` for the moment at which it is handled.
pub record LoginEntry : Type 0 where
  pub ut_type : ℕ
  pub ut_user : Bytes
  pub ctime : Bytes

-- USER_PROCESS of <utmp.h>
abbrev pub user_process : ℕ
user_process = 7

-- `timestamp[strlen(timestamp) - 1] = '\0'`
abbrev pub without_newline : Bytes → Bytes
without_newline timestamp = take (length timestamp - 1) timestamp

abbrev pub log_line : Bytes → Bytes → Bytes
log_line timestamp name =
    without_newline timestamp ++ (codes ": User " ++ (name ++ (codes " logged in" ++ b'\n' ∷ [])))

-- What is written for one entry; the first argument stands for `getpwnam`, with the name that it finds.
unfoldable pub logged : (Bytes → Option Bytes) → LoginEntry → Bytes
logged getpwnam ut =
    let text : Bytes = elim (getpwnam ut.ut_user) [
      | none ↦ []
      | some name ↦ log_line ut.ctime name
    ] in
    if ut.ut_type == user_process then text else []

-- What `print_logged_users` appends to the log.
unfoldable pub print_logged_users : (Bytes → Option Bytes) → List LoginEntry → Bytes
unfolding logged
print_logged_users getpwnam [] = []
print_logged_users getpwnam (ut ∷ uts) = logged getpwnam ut ++ print_logged_users getpwnam uts

-- A round of the loop: what `received_sigterm` is when it is tested, and who is then logged in.
pub record LogRound : Type 0 where
  pub received_sigterm : Bool
  pub entries : List LoginEntry

-- The `while (1)`: the log behind it. `none`: it still runs after these rounds.
unfoldable pub log_loop : (Bytes → Option Bytes) → List LogRound → Bytes → Option Bytes
unfolding print_logged_users
log_loop getpwnam [] log = none
log_loop getpwnam (r ∷ rounds) log =
    let more = log_loop getpwnam rounds (log ++ print_logged_users getpwnam r.entries) in
    if r.received_sigterm then some log else more

-- What the daemon comes to: the parents have left, it still runs, or it returns a code and the log.
pub data Ending : Type 0 where
  parent_left : Ending
  runs : Ending
  ends : ℤ → Bytes → Ending

abbrev log_ending : Option Bytes → Ending
log_ending none = runs
log_ending (some log) = ends (pos 0) log

abbrev after_daemon : (Bytes → Option Bytes) → ℤ → List LogRound → Bytes → Outcome → Ending
after_daemon getpwnam log_fd rounds log exits = parent_left
after_daemon getpwnam log_fd rounds log (returns ret d) =
    if eq_ℤ ret (pos 0)
    then (if eq_ℤ log_fd (negsuc 0)
        then ends (pos 1) log
        else log_ending (log_loop getpwnam rounds log))
    else ends (pos 1) log

-- `main`; `log_fd` is what `open_log_file` returns, and `log` what the file holds, or is created with.
unfoldable pub daemon_main : (Bytes → Option Bytes) → Calls → ℤ → List LogRound → Bytes → Ending
unfolding log_loop become_daemon
daemon_main getpwnam c log_fd rounds log =
    after_daemon getpwnam log_fd rounds log (become_daemon 0 c)
