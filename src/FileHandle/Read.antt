-- ===== src/FileHandle/Read.antt =====
-- What `file_handle_read` makes of a file.
use gemtek_sw_training.Prelude.{
  ◌==◌, if◌then◌else◌, ==_iff, ne→==_false, Bool-cases, length, ℕ, ◌+◌, ◌≡◌, refl, sym, ◌≢◌, inl,
  inr, some, [], ◌∷◌, ◌++◌, append_assoc, append-nil, arith, Bytes,
}
use gemtek_sw_training.CString.Search.{Lacks}
use gemtek_sw_training.FileHandle.{file_handle_read, copy_loop, Files}

-- what one byte becomes
abbrev shown_byte : ℕ → Bytes
shown_byte ch = if ch == b'\n' then b'|' ∷ b' ' ∷ [] else ch ∷ []

abbrev shown_all : Bytes → Bytes
shown_all [] = []
shown_all (ch ∷ s) = shown_byte ch ++ shown_all s

-- The reverse translation: a bar and the byte behind it stand for a newline.
abbrev pub restore : Bytes → Bytes
restore [] = []
restore (c ∷ []) = c ∷ []
restore (c ∷ d ∷ s) =
    let line = b'\n' ∷ restore s in
    let plain = c ∷ restore (d ∷ s) in if c == b'|' then line else plain

abbrev pub newlines : Bytes → ℕ
newlines [] = 0
newlines (c ∷ s) = (if c == b'\n' then 1 else 0) + newlines s

copy_loop-shown_all : (s text : Bytes) → Lacks 0xff s → copy_loop s text ≡ text ++ shown_all s
unfolding copy_loop
copy_loop-shown_all [] text h = sym (append-nil text)
copy_loop-shown_all (ch ∷ s) text (hx, h) = elim (Bool-cases (ch == b'\n')) [
  | inl e ↦
      rw (ne→==_false ch 0xff hx, e, copy_loop, copy_loop-shown_all s (text ++ b'|' ∷ b' ' ∷ []) h)
        (append_assoc text (b'|' ∷ b' ' ∷ []) (shown_all s))
  | inr e ↦
      rw (ne→==_false ch 0xff hx, e, copy_loop, copy_loop-shown_all s (text ++ ch ∷ []) h)
        (append_assoc text (ch ∷ []) (shown_all s))
]

copy_loop-stop : (s rest text : Bytes) → copy_loop (s ++ 0xff ∷ rest) text ≡ copy_loop s text
unfolding copy_loop
copy_loop-stop [] rest text = refl
copy_loop-stop (ch ∷ s) rest text =
    rw
      (copy_loop-stop s rest
        (if ch == b'\n' then (text ++ b'|' ∷ b' ' ∷ []) else (text ++ ch ∷ [])))
      refl

restore_plain : (c : ℕ) (t : Bytes) → c ≢ b'|' → restore (c ∷ t) ≡ c ∷ restore t
restore_plain c [] h = refl
restore_plain c (d ∷ t) h = rw (ne→==_false c b'|' h) refl

restore-shown_all : (s : Bytes) → Lacks b'|' s → restore (shown_all s) ≡ s
restore-shown_all [] h = refl
restore-shown_all (c ∷ s) (hc, h) = elim (Bool-cases (c == b'\n')) [
  | inl e ↦ rw (e, restore-shown_all s h, (==_iff c b'\n').0 e) refl
  | inr e ↦ rw (e, restore_plain c (shown_all s) hc, restore-shown_all s h) refl
]

length-shown_all : (s : Bytes) → length (shown_all s) ≡ length s + newlines s
length-shown_all [] = refl
length-shown_all (c ∷ s) = elim (Bool-cases (c == b'\n')) [
  | inl e ↦ rw e (omega (arith, length-shown_all s))
  | inr e ↦ rw e (omega (arith, length-shown_all s))
]

shown_all-Lacks : (s : Bytes) → Lacks b'\n' (shown_all s)
shown_all-Lacks [] = tt
shown_all-Lacks (c ∷ s) = elim (Bool-cases (c == b'\n')) [
  | inl e ↦ rw e (omega arith, (omega arith, shown_all-Lacks s))
  | inr e ↦ rw e ((λ h. ground arith), shown_all-Lacks s)
]

read-shown_all :
    (fs : Files) (dir text content : Bytes)
    → fs dir ≡ some content
    → Lacks 0xff content
    → file_handle_read fs dir text ≡ (0, shown_all content)
unfolding file_handle_read
read-shown_all fs dir text content e h = rw (e, file_handle_read, copy_loop-shown_all content [] h)

-- A file with no byte 0xff is read whole: the code is 0, no newline is left in `text`, and `text` is
-- longer than the file by one byte for each newline.
pub file_handle_read_whole :
    (fs : Files) (dir text content : Bytes)
    → fs dir ≡ some content
    → Lacks 0xff content
    → ((file_handle_read fs dir text).0 ≡ 0)
      × Lacks b'\n' (file_handle_read fs dir text).1
      × (length (file_handle_read fs dir text).1 ≡ length content + newlines content)
file_handle_read_whole fs dir text content e h =
    rw (read-shown_all fs dir text content e h)
      (refl, shown_all-Lacks content, length-shown_all content)

-- The text that `file_handle_read` makes of a file with no byte 0xff and no bar gives the file back,
-- when each bar and the byte behind it are turned back into a newline.
pub restore-file_handle_read :
    (fs : Files) (dir text content : Bytes)
    → fs dir ≡ some content
    → Lacks 0xff content
    → Lacks b'|' content
    → restore (file_handle_read fs dir text).1 ≡ content
restore-file_handle_read fs dir text content e h k =
    rw (read-shown_all fs dir text content e h) (restore-shown_all content k)

-- Reading stops for good at the first byte 0xff, which compares equal to EOF: what stands behind it
-- changes nothing, and the code is 0 all the same.
pub file_handle_read_stops :
    (fs gs : Files) (dir text s rest : Bytes)
    → fs dir ≡ some (s ++ 0xff ∷ rest)
    → gs dir ≡ some s
    → file_handle_read fs dir text ≡ file_handle_read gs dir text
unfolding file_handle_read
file_handle_read_stops fs gs dir text s rest e d =
    rw (e, d, file_handle_read, copy_loop-stop s rest []) refl
