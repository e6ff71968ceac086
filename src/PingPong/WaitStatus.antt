-- ===== src/PingPong/WaitStatus.antt =====
-- 04-IPC-Synchronization/02-Multi-Processes-Signal/src/syn_signal.c: what the handler reports of a child
-- that has ended. The macros of <sys/wait.h> are an argument.
use gemtek_sw_training.Prelude.{
  ◌==◌, if◌then◌else◌, ℕ, ◌≡◌, refl, ap, Bool, true, false, ℤ, negsuc, eq_ℤ,
}

-- The macros: WIFEXITED, WIFSIGNALED, WCOREDUMP, WIFSTOPPED, WIFCONTINUED, WEXITSTATUS, WTERMSIG, WSTOPSIG.
pub record WaitMacros : Type 0 where
  pub if_exited : ℤ → Bool
  pub if_signaled : ℤ → Bool
  pub core_dump : ℤ → Bool
  pub if_stopped : ℤ → Bool
  pub if_continued : ℤ → Bool
  pub exit_status : ℤ → ℤ
  pub term_sig : ℤ → ℤ
  pub stop_sig : ℤ → ℤ

-- The texts of `print_wait_status`, each with its number.
pub data WaitText : Type 0 where
  normal_termination : ℤ → WaitText
  killed : ℤ → WaitText
  core_dumped : WaitText
  stopped : ℤ → WaitText
  continued : WaitText
  what_happened : ℤ → WaitText

unfoldable pub print_wait_status : WaitMacros → ℤ → WaitText
print_wait_status w status =
    if w.if_exited status
    then normal_termination (w.exit_status status)
    else if w.if_signaled status
    then killed (w.term_sig status)
    else if w.core_dump status
    then core_dumped
    else if w.if_stopped status
    then stopped (w.stop_sig status)
    else if w.if_continued status
    then continued
    else what_happened status

-- What the whole `signal_handler` does: SIGUSR1 sets the flag, and SIGCHLD waits for the child.
pub data Handled : Type 0 where
  sets_received_sig : Handled
  wait_unsuccessful : Handled
  reports : WaitText → Handled
  ignored : Handled

-- The numbers of <signal.h>.
abbrev pub sigusr1 : ℕ
sigusr1 = 10

abbrev pub sigchld : ℕ
sigchld = 17

-- `rv` and `status` are what `wait` gives.
unfoldable pub handle_signal : WaitMacros → ℕ → ℤ → ℤ → Handled
unfolding print_wait_status
handle_signal w signum rv status =
    if signum == sigusr1
    then sets_received_sig
    else if signum == sigchld
    then (if eq_ℤ rv (negsuc 0) then wait_unsuccessful else reports (print_wait_status w status))
    else ignored

-- How a child may have changed, as POSIX says that a status tells it.
pub data Change : Type 0 where
  exited : ℤ → Change
  signaled : ℤ → Change
  suspended : ℤ → Change
  resumed : Change

-- The macros on the status of this change: exactly one of the four tests holds. What WCOREDUMP says of
-- a child that no signal has ended is left open.
pub record Describes (w : WaitMacros) (status : ℤ) (c : Change) : Type 0 where
  pub on_exit : w.if_exited status ≡ elim c [ exited n ↦ true | _ ↦ false ]
  pub on_signal : w.if_signaled status ≡ elim c [ signaled n ↦ true | _ ↦ false ]
  pub on_stop : w.if_stopped status ≡ elim c [ suspended n ↦ true | _ ↦ false ]
  pub on_resume : w.if_continued status ≡ elim c [ resumed ↦ true | _ ↦ false ]
  pub numbers : elim c as (λ x. Type 0) [
    | exited n ↦ w.exit_status status ≡ n
    | signaled n ↦ w.term_sig status ≡ n
    | suspended n ↦ w.stop_sig status ≡ n
    | resumed ↦ Unit {0}
  ]

-- The text for each change; the flag is WCOREDUMP.
abbrev pub text_for : Bool → Change → WaitText
text_for core (exited n) = normal_termination n
text_for core (signaled n) = killed n
text_for core (suspended n) = if core then core_dumped else stopped n
text_for core resumed = if core then core_dumped else continued

print_wait_status-text_for :
    (w : WaitMacros) (status : ℤ) (c : Change)
    → Describes w status c
    → print_wait_status w status ≡ text_for (w.core_dump status) c
unfolding print_wait_status
print_wait_status-text_for w status (exited n) d = rw (d.on_exit, d.numbers) refl
print_wait_status-text_for w status (signaled n) d = rw (d.on_exit, d.on_signal, d.numbers) refl
print_wait_status-text_for w status (suspended n) d =
    rw (d.on_exit, d.on_signal, d.on_stop, d.numbers) refl
print_wait_status-text_for w status resumed d =
    rw (d.on_exit, d.on_signal, d.on_stop, d.on_resume) refl

-- When SIGCHLD is handled and `wait` succeeds, the handler reports how the child has changed: a normal end
-- with its status, or the signal that killed it, whether or not a core was dumped. Only a child that
-- was stopped or continued can be reported as one that dumped a core, namely where WCOREDUMP holds of its
-- status.
pub handle_signal-text_for :
    (w : WaitMacros) (rv status : ℤ) (c : Change)
    → eq_ℤ rv (negsuc 0) ≡ false
    → Describes w status c
    → handle_signal w sigchld rv status ≡ reports (text_for (w.core_dump status) c)
unfolding handle_signal
handle_signal-text_for w rv status c e d =
    rw e (ap reports (print_wait_status-text_for w status c d))
