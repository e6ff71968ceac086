-- ===== src/CString.antt =====
-- What the programs use of <string.h> and of the streams of <stdio.h>, on strings as byte lists.
pub mod Search
pub mod Lines
pub mod Texts
pub mod Tokens
pub mod Format
use gemtek_sw_training.Prelude.{
  ◌==◌, if◌then◌else◌, length, ℕ, zero, suc, Bool, true, false, ◌&&◌, ◌||◌, Option, none, some,
  List, [], ◌∷◌, ◌++◌, Bytes,
}

-- `strchr(s, c) != NULL`
unfoldable pub has_char : ℕ → Bytes → Bool
has_char c [] = false
has_char c (x ∷ s) = (x == c) || has_char c s

-- `strrchr`: the text behind the last `c`, if there is one.
unfoldable pub after_last : ℕ → Bytes → Option Bytes
after_last c [] = none
after_last c (x ∷ s) = elim (after_last c s) [
  | some t ↦ some t
  | none ↦ if x == c then some s else none
]

-- `strncmp(s, p, strlen(p)) == 0`
unfoldable pub starts_with : Bytes → Bytes → Bool
starts_with [] s = true
starts_with (c ∷ p) [] = false
starts_with (c ∷ p) (x ∷ s) = (x == c) && starts_with p s

-- `strstr(s, p)`: the text from the first occurrence of `p` on.
unfoldable pub find_text : Bytes → Bytes → Option Bytes
find_text p [] = elim p [ [] ↦ some [] | c ∷ r ↦ none ]
find_text p (x ∷ s) =
    let rest = find_text p s in if starts_with p (x ∷ s) then some (x ∷ s) else rest

-- `strcmp(s, t) == 0`
unfoldable pub str_eq : Bytes → Bytes → Bool
str_eq [] [] = true
str_eq [] (y ∷ t) = false
str_eq (x ∷ s) [] = false
str_eq (x ∷ s) (y ∷ t) = (x == y) && str_eq s t

-- What a `%s` or a `strcpy` reads of a buffer: the bytes before the first NUL.
unfoldable pub c_str : Bytes → Bytes
c_str [] = []
c_str (x ∷ s) = let rest = c_str s in if x == 0 then [] else x ∷ rest

-- The tokens that repeated calls of `strtok(s, c)` return: the runs of bytes other than `c`. The
-- last argument is the token that is being read.
pub token_loop : ℕ → Bytes → Bytes → List Bytes
token_loop c [] [] = []
token_loop c [] (y ∷ cur) = (y ∷ cur) ∷ []
token_loop c (x ∷ s) [] = token_loop c s (if x == c then [] else x ∷ [])
token_loop c (x ∷ s) (y ∷ cur) =
    let cut = (y ∷ cur) ∷ token_loop c s [] in
    let more = token_loop c s (y ∷ (cur ++ x ∷ [])) in if x == c then cut else more

unfoldable pub tokens : ℕ → Bytes → List Bytes
unfolding token_loop
tokens c s = token_loop c s []

-- `fgets(line, n + 1, fp)` on the unread part of a stream: at most `n` bytes, up to and with the
-- first newline; the line and what is left.
unfoldable pub line_of : ℕ → Bytes → Bytes × Bytes
line_of zero s = ([], s)
line_of (suc n) [] = ([], [])
line_of (suc n) (x ∷ s) =
    let rest = line_of n s in if x == b'\n' then (x ∷ [], s) else (x ∷ rest.0, rest.1)

unfoldable pub fgets : ℕ → Bytes → Option (Bytes × Bytes)
unfolding line_of
fgets n [] = none
fgets n (x ∷ s) = some (line_of n (x ∷ s))

-- All the lines that a `while (fgets(…) != NULL)` sees.
pub lines_loop : ℕ → ℕ → Bytes → List Bytes
lines_loop zero n s = []
lines_loop (suc fuel) n s = elim (fgets n s) [
  | none ↦ []
  | some (line, rest) ↦ line ∷ lines_loop fuel n rest
]

-- The fuel is the length of the stream: each round reads a byte, as the buffers hold one.
unfoldable pub lines : ℕ → Bytes → List Bytes
unfolding lines_loop fgets
lines n s = lines_loop (length s) n s

-- What the buffer of such a loop holds at its end, when it holds `line` at first.
unfoldable pub last_of : List Bytes → Bytes → Bytes
last_of [] line = line
last_of (l ∷ ls) line = last_of ls l
