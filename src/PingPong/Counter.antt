-- ===== src/PingPong/Counter.antt =====
-- The number that `get_last_line_number` reads behind a write.
use gemtek_sw_training.Prelude.{
  length, length-append, All-append, ℕ, suc, ◌^◌, ◌<◌, ◌≡◌, refl, ap, ◌∙◌, ℤ, pos, some, [], ◌∷◌,
  ◌++◌, append_assoc, arith, Bytes, codes,
}
use gemtek_sw_training.CString.Search.{Lacks}
use gemtek_sw_training.CString.Lines.{EndsLine, line}
use gemtek_sw_training.CString.Format.{decimal, scan_literal, scan_int}
use gemtek_sw_training.CString.Format.RoundTrip.{
  scan_int-decimal, length-decimal_le, decimal-Lacks, scan_int_space, print_int-pos,
}
use gemtek_sw_training.FileHandle.{Files, file_handle_write}
use gemtek_sw_training.FileHandle.LastLine.{
  contents, write-contents, get_last_line-file_handle_write,
}
use gemtek_sw_training.PingPong.{file_name, scan_counter, get_last_line_number, message}

-- The file consists of complete lines, and its last number is `n`.
pub record Counts (fs : Files) (n : ℕ) : Type 0 where
  pub complete : EndsLine (contents (fs file_name))
  pub number : get_last_line_number fs file_name ≡ pos n

body : ℕ → ℕ → Bytes
body pid n = codes "Process " ++ (decimal pid ++ (codes ": " ++ decimal n))

message-body : (pid n : ℕ) → message pid (pos n) ≡ body pid n ++ b'\n' ∷ []
unfolding message body
message-body pid n =
    rw (print_int-pos pid, print_int-pos n)
      (ap (λ t. t ++ b'\n' ∷ [])
        (append_assoc (codes "Process ") (decimal pid) (codes ": " ++ decimal n)))

length-body : (pid n : ℕ) → pid < 10 ^ 10 → n < 10 ^ 10 → suc (length (body pid n)) < 255
unfolding body
length-body pid n hp hn = omega (
  arith,
  length-append (decimal pid) (codes ": " ++ decimal n),
  length-decimal_le pid 9 hp,
  length-decimal_le n 9 hn,
)

body-Lacks : (pid n c : ℕ) → c < b' ' → Lacks c (body pid n)
unfolding body
body-Lacks pid n c h = All-append _ (codes "Process ") _ (omega arith) (
    All-append _ (decimal pid) _ (decimal-Lacks pid c (omega arith))
      (All-append _ (codes ": ") (decimal n) (omega arith) (decimal-Lacks n c (omega arith))))

scan_label : (s : Bytes) → scan_literal (codes "Process") (codes "Process " ++ s) ≡ some (b' ' ∷ s)
unfolding scan_literal
scan_label s = refl

scan_colon : (s : Bytes) → scan_literal (codes ":") (codes ": " ++ s) ≡ some (b' ' ∷ s)
unfolding scan_literal
scan_colon s = refl

scan_counter_shape :
    (text s t u v : Bytes) (pid n : ℤ)
    → scan_literal (codes "Process") text ≡ some s
    → scan_int s ≡ some (pid, t)
    → scan_literal (codes ":") t ≡ some u
    → scan_int u ≡ some (n, v)
    → scan_counter text ≡ some n
unfolding scan_counter scan_literal
scan_counter_shape text s t u v pid n a b c d = rw (a, b, c, d) refl

scan-body : (pid n : ℕ) → scan_counter (body pid n ++ b'\n' ∷ []) ≡ some (pos n)
unfolding body
scan-body pid n =
    scan_counter_shape _ _ _ _ (b'\n' ∷ []) (pos pid) (pos n)
      (scan_label ((decimal pid ++ (codes ": " ++ decimal n)) ++ b'\n' ∷ []))
      (scan_int_space _
        ∙ ap scan_int (append_assoc (decimal pid) (codes ": " ++ decimal n) (b'\n' ∷ []))
        ∙ scan_int-decimal pid (codes ": " ++ (decimal n ++ b'\n' ∷ [])) refl)
      (scan_colon (decimal n ++ b'\n' ∷ []))
      (scan_int_space _ ∙ scan_int-decimal n (b'\n' ∷ []) refl)

-- Behind a line that `sprintf` made, the last number of the file is the number in that line.
pub write-Counts :
    (fs : Files) (pid n : ℕ)
    → EndsLine (contents (fs file_name))
    → pid < 10 ^ 10
    → n < 10 ^ 10
    → Counts (file_handle_write fs file_name (message pid (pos n))) n
unfolding get_last_line_number
write-Counts fs pid n e hp hn = rw (message-body pid n) (record {
  complete =
      rw
        (
          write-contents fs file_name (body pid n ++ b'\n' ∷ []),
          ← append_assoc (contents (fs file_name)) (body pid n) (b'\n' ∷ []),
        )
        (line (contents (fs file_name) ++ body pid n));
  number =
      rw
        (
          get_last_line-file_handle_write fs file_name [] (body pid n) e
              (body-Lacks pid n b'\n' (omega arith)) (body-Lacks pid n 0 (omega arith))
              (length-body pid n hp hn),
          scan-body pid n,
        )
        refl;
})
