-- ===== src/PingPong/Turns.antt =====
-- The numbers in the file go up by one, whatever the order of turns and signals.
use native.Mathlib.Nat.{add-zero, add_assoc}
use gemtek_sw_training.Prelude.{
  if◌then◌else◌, ℕ, ◌+◌, ◌%◌, ◌^◌, ◌≤◌, ◌<◌, ◌≡◌, refl, sym, ◌≢◌, Bool, true, false, pos, ◌+ℤ◌,
  arith,
}
use gemtek_sw_training.FileHandle.{Files, file_handle_write}
use gemtek_sw_training.PingPong.{
  file_name, message, get_last_line_number, Pc, start, first_write, first_kill, test, read, write,
  kill, clear, pause, asleep, done, System, Turn, parent_runs, child_runs, parent_signal,
  child_signal, turn, init, parent_turn, child_turn, signal_handler,
}
use gemtek_sw_training.PingPong.Counter.{Counts, write-Counts}
use gemtek_sw_training.PingPong.Token.{tokens}

abbrev pub IsEven : ℕ → Type 0
IsEven n = n % 2 ≡ 0

abbrev pub IsOdd : ℕ → Type 0
IsOdd n = n % 2 ≡ 1

-- What the parent's place says of the last number `n` of the file, `d` above the first one.
abbrev pub ParentAt : ℕ → ℕ → Pc → Bool → Type 0
ParentAt n d start f = IsEven d
ParentAt n d (first_write m) f = (m ≡ pos (n + 1)) × IsEven d
ParentAt n d first_kill f = IsOdd d
ParentAt n d test f = f ≡ true → IsEven d
ParentAt n d read f = IsEven d
ParentAt n d (write m) f = (m ≡ pos (n + 1)) × IsEven d
ParentAt n d kill f = IsOdd d
ParentAt n d clear f = Unit
ParentAt n d pause f = f ≡ true → IsEven d
ParentAt n d asleep f = f ≡ true → IsEven d
ParentAt n d done f = ⊥

abbrev pub ChildAt : ℕ → ℕ → Pc → Bool → Type 0
ChildAt n d start f = ⊥
ChildAt n d (first_write m) f = ⊥
ChildAt n d first_kill f = ⊥
ChildAt n d test f = f ≡ true → IsOdd d
ChildAt n d read f = IsOdd d
ChildAt n d (write m) f = (m ≡ pos (n + 1)) × IsOdd d × (n ≢ 15)
ChildAt n d kill f = IsEven d
ChildAt n d clear f = Unit
ChildAt n d pause f = f ≡ true → IsOdd d
ChildAt n d asleep f = f ≡ true → IsOdd d
ChildAt n d done f = (n ≡ 15) × IsOdd d

-- `d` lines stand behind the first number `base`.
pub record Phase (base d : ℕ) (s : System) : Type 0 where
  pub single : tokens s ≤ 1
  pub parent_at : ParentAt (base + d) d s.parent.pc s.parent.received_sig
  pub parent_called : s.parent.pending ≡ true → IsEven d
  pub child_at : ChildAt (base + d) d s.child.pc s.child.received_sig
  pub child_called : s.child.pending ≡ true → IsOdd d
  pub over : s.child.pc ≡ done → tokens s ≡ 0

pub record Sound (base d : ℕ) (s : System) : Type 0 where
  pub counts : Counts s.files (base + d)
  pub phase : Phase base d s

-- whether the next turn of a process writes
abbrev pub is_write : Pc → Bool
is_write (first_write n) = true
is_write (write n) = true
is_write pc = false

abbrev pub writes : Turn → System → ℕ
writes parent_runs s = if is_write s.parent.pc then 1 else 0
writes child_runs s = if is_write s.child.pc then 1 else 0
writes parent_signal s = 0
writes child_signal s = 0

pub init-Sound : (fs : Files) (base : ℕ) → Counts fs base → Sound base 0 (init fs)
init-Sound fs base c = record {
  counts = rw (add-zero base) c;
  phase = record {
    single = omega arith;
    parent_at = refl;
    parent_called = λ h. cc;
    child_at = λ h. cc;
    child_called = λ h. cc;
    over = λ h. cc;
  };
}

plus_one : (n : ℕ) → pos n +ℤ pos 1 ≡ pos (n + 1)
unfolding ◌+ℤ◌
plus_one n = ground arith

module _ (parent_pid child_pid : ℕ) (base d : ℕ) where
  parent_turn-Phase :
      (pc : Pc) (s : System)
      → s.parent.pc ≡ pc
      → Phase base d s
      → get_last_line_number s.files file_name +ℤ pos 1 ≡ pos (base + d + 1)
      → Phase base (d + (if is_write pc then 1 else 0)) (parent_turn parent_pid child_pid pc s)
  unfolding parent_turn
  parent_turn-Phase start s e h next = ground arith
  parent_turn-Phase _ s e h next = ground arith

  child_turn-Phase :
      (pc : Pc) (s : System)
      → s.child.pc ≡ pc
      → Phase base d s
      → Counts s.files (base + d)
      → get_last_line_number s.files file_name +ℤ pos 1 ≡ pos (base + d + 1)
      → Phase base (d + (if is_write pc then 1 else 0)) (child_turn parent_pid child_pid pc s)
  unfolding child_turn
  child_turn-Phase start s e h c next = ground arith
  child_turn-Phase _ s e h c next = ground arith

  parent_signal-Phase :
      (s : System)
      → Phase base d s
      → Phase base d (record s { parent = signal_handler test s.parent })
  unfolding signal_handler
  parent_signal-Phase s h = ground arith

  child_signal-Phase :
      (s : System)
      → Phase base d s
      → Phase base d (record s { child = signal_handler test s.child })
  unfolding signal_handler
  child_signal-Phase s h = ground arith

module _ (parent_pid child_pid : ℕ) (base d : ℕ) where
  pub parent_files :
      (pc : Pc) (s : System)
      → s.parent.pc ≡ pc
      → Phase base d s
      → (parent_turn parent_pid child_pid pc s).files ≡ (
          if is_write pc
          then file_handle_write s.files file_name (message parent_pid (pos (base + d + 1)))
          else s.files)
  unfolding parent_turn
  parent_files start s e h = refl
  parent_files _ s e h = ground arith

  pub child_files :
      (pc : Pc) (s : System)
      → s.child.pc ≡ pc
      → Phase base d s
      → (child_turn parent_pid child_pid pc s).files ≡ (
          if is_write pc
          then file_handle_write s.files file_name (message child_pid (pos (base + d + 1)))
          else s.files)
  unfolding child_turn
  child_files start s e h = ground arith
  child_files _ s e h = ground arith

  files-Counts :
      (pid : ℕ) (b : Bool) (fs : Files)
      → Counts fs (base + d)
      → pid < 10 ^ 10
      → base + d + 1 < 10 ^ 10
      → Counts
          (if b then file_handle_write fs file_name (message pid (pos (base + d + 1))) else fs)
          (base + (d + (if b then 1 else 0)))
  files-Counts pid true fs c hp k =
      rw (sym (add_assoc base d 1)) (write-Counts fs pid (base + d + 1) c.complete hp k)
  files-Counts pid false fs c hp k = rw (add-zero d) c

  next_number :
      (fs : Files)
      → Counts fs (base + d)
      → get_last_line_number fs file_name +ℤ pos 1 ≡ pos (base + d + 1)
  next_number fs c = rw (c.number) (plus_one (base + d))

  pub turn-Sound :
      (t : Turn) (s : System)
      → Sound base d s
      → parent_pid < 10 ^ 10
      → child_pid < 10 ^ 10
      → base + d + 1 < 10 ^ 10
      → Sound base (d + writes t s) (turn parent_pid child_pid t s)
  unfolding turn
  turn-Sound parent_runs s h hp hc k = record {
    counts =
        rw (parent_files s.parent.pc s refl h.phase)
          (files-Counts parent_pid (is_write s.parent.pc) s.files h.counts hp k);
    phase =
        parent_turn-Phase parent_pid child_pid base d s.parent.pc s refl h.phase
          (next_number s.files h.counts);
  }
  turn-Sound child_runs s h hp hc k = record {
    counts =
        rw (child_files s.child.pc s refl h.phase)
          (files-Counts child_pid (is_write s.child.pc) s.files h.counts hc k);
    phase =
        child_turn-Phase parent_pid child_pid base d s.child.pc s refl h.phase h.counts
          (next_number s.files h.counts);
  }
  turn-Sound parent_signal s h hp hc k = rw (add-zero d) (record {
    counts = h.counts;
    phase = parent_signal-Phase parent_pid child_pid base d s h.phase;
  })
  turn-Sound child_signal s h hp hc k = rw (add-zero d) (record {
    counts = h.counts;
    phase = child_signal-Phase parent_pid child_pid base d s h.phase;
  })
