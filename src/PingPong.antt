-- ===== src/PingPong.antt =====
-- 04-IPC-Synchronization/02-Multi-Processes-Signal: main.c and the handler of src/syn_signal.c.
-- Two processes append numbered lines to one file in turn, and wake one another by SIGUSR1. A turn of
-- a process is one action between two points where a signal may arrive.
pub mod Common
pub mod WaitStatus
pub mod Counter
pub mod Token
pub mod Turns
pub mod Rise
pub mod Stop
pub mod Wakeup
use gemtek_sw_training.Prelude.{
  if◌then◌else◌, ℕ, Bool, true, false, ℤ, pos, ◌+ℤ◌, eq_ℤ, Option, none, some, List, [], ◌∷◌, ◌++◌,
  Bytes, codes,
}
use gemtek_sw_training.CString.Format.{print_int, scan_int, scan_literal}
use gemtek_sw_training.FileHandle.{Files, get_last_line, file_handle_write}

abbrev pub file_name : Bytes
file_name = codes "output.txt"

-- `sscanf(line, "Process %*d: %d", &n)`: a space of the format skips what `%d` skips by itself.
unfoldable pub scan_counter : Bytes → Option ℤ
scan_counter line = elim (scan_literal (codes "Process") line) [
  | none ↦ none
  | some s ↦ elim (scan_int s) [
    | none ↦ none
    | some (pid, t) ↦ elim (scan_literal (codes ":") t) [
      | none ↦ none
      | some u ↦ elim (scan_int u) [ none ↦ none | some (n, v) ↦ some n ]
    ]
  ]
]

-- `last_line_number` is 0 unless `sscanf` stores a number.
abbrev stored : Option ℤ → ℤ
stored none = pos 0
stored (some n) = n

unfoldable pub get_last_line_number : Files → Bytes → ℤ
unfolding scan_counter
get_last_line_number fs name = stored (scan_counter (get_last_line fs name []).1)

-- `sprintf(msg, "Process %i: %i\n", getpid(), counter)`
unfoldable pub message : ℕ → ℤ → Bytes
message pid counter =
    ((codes "Process " ++ print_int (pos pid)) ++ (codes ": " ++ print_int counter)) ++ b'\n' ∷ []

-- Where a process stands: what it does at its next turn. `write` and `kill` are of the handling of a
-- signal; `start`, `first_write` and `first_kill` are what the parent does before its loop.
pub data Pc : Type 0 where
  start : Pc
  first_write : ℤ → Pc
  first_kill : Pc
  test : Pc
  read : Pc
  write : ℤ → Pc
  kill : Pc
  clear : Pc
  pause : Pc
  asleep : Pc
  done : Pc

-- Each process has its own `received_sig`, and a pending SIGUSR1 does not queue.
pub record Process : Type 0 where
  pub pc : Pc
  pub received_sig : Bool
  pub pending : Bool

pub record System : Type 0 where
  pub files : Files
  pub parent : Process
  pub child : Process

-- `signal_handler(SIGUSR1)`; a process that sleeps in `pause` returns from it.
abbrev woken : Pc → Pc → Pc
woken asleep next = next
woken pc next = pc

unfoldable pub signal_handler : Pc → Process → Process
signal_handler next p =
    if p.pending then record p { pc = woken p.pc next; received_sig = true; pending = false } else p

abbrev send : Process → Process
send p = record p { pending = true }

abbrev at : Process → Pc → Process
at p pc = record p { pc = pc }

-- Who moves next: a process makes a turn, or a pending signal is delivered to it.
pub data Turn : Type 0 where
  parent_runs child_runs parent_signal child_signal : Turn

module _ (parent_pid child_pid : ℕ) where
  -- `parent_process_task`. The loop tests the flag before it sleeps.
  unfoldable pub parent_turn : Pc → System → System
  parent_turn start s = record s {
    parent = at s.parent (first_write (get_last_line_number s.files file_name +ℤ pos 1));
  }
  parent_turn (first_write n) s = record s {
    files = file_handle_write s.files file_name (message parent_pid n);
    parent = at s.parent first_kill;
  }
  parent_turn first_kill s = record s { parent = at s.parent test; child = send s.child }
  parent_turn test s = record s {
    parent = at s.parent (if s.parent.received_sig then read else pause);
  }
  parent_turn read s = record s {
    parent = at s.parent (write (get_last_line_number s.files file_name +ℤ pos 1));
  }
  parent_turn (write n) s = record s {
    files = file_handle_write s.files file_name (message parent_pid n);
    parent = at s.parent kill;
  }
  parent_turn kill s = record s { parent = at s.parent clear; child = send s.child }
  parent_turn clear s = record s {
    parent = record { pc = pause; received_sig = false; pending = s.parent.pending };
  }
  parent_turn pause s = record s { parent = at s.parent asleep }
  parent_turn asleep s = s
  parent_turn done s = s

  -- `child_process_task`. The loop sleeps before it tests the flag, and leaves at the number 15.
  unfoldable pub child_turn : Pc → System → System
  child_turn test s = record s { child = at s.child (if s.child.received_sig then read else pause) }
  child_turn read s =
      let counter = get_last_line_number s.files file_name in
      record s {
        child = at s.child (if eq_ℤ counter (pos 15) then done else write (counter +ℤ pos 1));
      }
  child_turn (write n) s = record s {
    files = file_handle_write s.files file_name (message child_pid n);
    child = at s.child kill;
  }
  child_turn kill s = record s { child = at s.child clear; parent = send s.parent }
  child_turn clear s = record s {
    child = record { pc = pause; received_sig = false; pending = s.child.pending };
  }
  child_turn pause s = record s { child = at s.child asleep }
  child_turn pc s = s

  -- After `pause` the parent goes on with its test, and so does the child.
  unfoldable pub turn : Turn → System → System
  turn parent_runs s = parent_turn s.parent.pc s
  turn child_runs s = child_turn s.child.pc s
  turn parent_signal s = record s { parent = signal_handler test s.parent }
  turn child_signal s = record s { child = signal_handler test s.child }

  unfoldable pub run : List Turn → System → System
  run [] s = s
  run (t ∷ ts) s = run ts (turn t s)

-- After `fork`, and the parent's `sleep(1)`, in which the child enters `pause`.
abbrev pub init : Files → System
init fs = record {
  files = fs;
  parent = record { pc = start; received_sig = false; pending = false };
  child = record { pc = pause; received_sig = false; pending = false };
}
