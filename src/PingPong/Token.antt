-- ===== src/PingPong/Token.antt =====
-- At most one of the two processes handles the file at a time.
use gemtek_sw_training.Prelude.{ℕ, ◌+◌, ◌≤◌, ◌≡◌, refl, Bool, true, false, arith}
use gemtek_sw_training.PingPong.{
  Pc, start, first_write, first_kill, test, read, write, kill, clear, pause, asleep, done, Process,
  System, Turn, parent_runs, child_runs, parent_signal, child_signal, turn, parent_turn, child_turn,
  signal_handler,
}

abbrev one_if : Bool → ℕ
one_if true = 1
one_if false = 0

-- whether a process has the right to write: it handles a signal, or its flag will make it
abbrev pub holds : Pc → Bool → ℕ
holds start f = 1 + one_if f
holds (first_write n) f = 1 + one_if f
holds first_kill f = 1 + one_if f
holds test f = one_if f
holds read f = 1
holds (write n) f = 1
holds kill f = 1
holds clear f = 0
holds pause f = one_if f
holds asleep f = one_if f
holds done f = 0

abbrev pub weight : Process → ℕ
weight p = holds p.pc p.received_sig + one_if p.pending

abbrev pub tokens : System → ℕ
tokens s = weight s.parent + weight s.child

handler-weight : (p : Process) → weight (signal_handler test p) ≤ weight p
unfolding signal_handler
handler-weight p = ground arith

module _ (parent_pid child_pid : ℕ) where
  parent_turn-tokens :
      (pc : Pc) (s : System)
      → s.parent.pc ≡ pc
      → tokens (parent_turn parent_pid child_pid pc s) ≤ tokens s
  unfolding parent_turn
  parent_turn-tokens start s e = ground arith
  parent_turn-tokens pc s e = ground arith

  child_turn-tokens :
      (pc : Pc) (s : System)
      → s.child.pc ≡ pc
      → tokens (child_turn parent_pid child_pid pc s) ≤ tokens s
  unfolding child_turn
  child_turn-tokens start s e = ground arith
  child_turn-tokens pc s e = ground arith

  -- No turn makes a second right to write.
  pub turn-tokens : (t : Turn) (s : System) → tokens (turn parent_pid child_pid t s) ≤ tokens s
  unfolding turn
  turn-tokens parent_runs s = parent_turn-tokens s.parent.pc s refl
  turn-tokens child_runs s = child_turn-tokens s.child.pc s refl
  turn-tokens parent_signal s = omega (arith, handler-weight s.parent)
  turn-tokens child_signal s = omega (arith, handler-weight s.child)
