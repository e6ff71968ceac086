-- ===== src/Directory/Linking.antt =====
-- 02-Linux-File-System/03-Link-To-File: main.c and the two functions that make links. The call `link` is
-- an argument.
use gemtek_sw_training.Prelude.{
  if◌then◌else◌, ◌≡◌, refl, ap, ◌∙◌, Bool, true, false, Option, none, some, [], Bytes, codes,
}
use gemtek_sw_training.CString.{str_eq}
use gemtek_sw_training.FileHandle.{Files}
use gemtek_sw_training.Directory.{Entries, search_file_in_directory, get_filepath_from_user}

-- `link`: the files behind it, or an error.
abbrev pub LinkCall : Type 0
LinkCall = Files → Bytes → Bytes → Option Files

-- What POSIX says of it: a new name for the file that has the old one, whose name must be there and
-- the new one free.
pub record IsLink (link : LinkCall) : Type 0 where
  pub made :
      (fs : Files) (source destination content : Bytes)
      → fs source ≡ some content
      → fs destination ≡ none
      → (fs' : Files) × (link fs source destination ≡ some fs')
        × ((other : Bytes)
            → fs' other ≡ (if str_eq other destination then some content else fs other))
  pub missing :
      (fs : Files) (source destination : Bytes)
      → fs source ≡ none
      → link fs source destination ≡ none

-- Both print an error and go on.
unfoldable pub create_hard_link_file : LinkCall → Files → Bytes → Bytes → Files
create_hard_link_file link fs source destination = elim (link fs source destination) [
  | none ↦ fs
  | some fs' ↦ fs'
]

-- It makes a hard link as well.
unfoldable pub create_soft_link_file : LinkCall → Files → Bytes → Bytes → Files
create_soft_link_file link fs source destination = elim (link fs source destination) [
  | none ↦ fs
  | some fs' ↦ fs'
]

abbrev pub hard_link : Bytes
hard_link = codes "hard_link.txt"

abbrev pub soft_link : Bytes
soft_link = codes "soft_link.txt"

-- What the search leaves in `ret_dir`: its status is not looked at. The argument gives the tree of a
-- directory.
unfoldable pub found_path : (Bytes → Option Entries) → Bytes → Bytes
unfolding search_file_in_directory get_filepath_from_user
found_path tree typed =
    let dir = (get_filepath_from_user typed).1 in
    (search_file_in_directory dir (codes "hello_world.txt") (tree dir) []).1

-- `main`
unfoldable pub link_main : LinkCall → (Bytes → Option Entries) → Bytes → Files → Files
unfolding found_path create_hard_link_file create_soft_link_file
link_main link tree typed fs =
    let ret_dir = found_path tree typed in
    create_soft_link_file link (create_hard_link_file link fs ret_dir hard_link) ret_dir soft_link

differ : str_eq soft_link hard_link ≡ false
unfolding str_eq
differ = refl

kept :
    (b : Bool) (content : Bytes) (old : Option Bytes)
    → old ≡ some content
    → (if b then some content else old) ≡ some content
kept true content old e = refl
kept false content old e = e

link_main-of :
    (link : LinkCall) (tree : Bytes → Option Entries) (typed : Bytes) (fs fs1 fs2 : Files)
    → link fs (found_path tree typed) hard_link ≡ some fs1
    → link fs1 (found_path tree typed) soft_link ≡ some fs2
    → link_main link tree typed fs ≡ fs2
unfolding link_main
link_main-of link tree typed fs fs1 fs2 e1 e2 =
    rw (e1, link_main, create_hard_link_file, e2, create_soft_link_file) refl

-- If the search has left the path of a file in `ret_dir`, and neither of the two names is taken, then
-- `main` leaves both names with the content of that file, and every other name as it was: the soft
-- link is a second hard link.
pub link_main_links :
    (link : LinkCall) (tree : Bytes → Option Entries) (typed : Bytes) (fs : Files)
    (content other : Bytes)
    → IsLink link
    → fs (found_path tree typed) ≡ some content
    → fs hard_link ≡ none
    → fs soft_link ≡ none
    → link_main link tree typed fs other ≡ (
        if str_eq other soft_link
        then some content
        else if str_eq other hard_link
        then some content
        else fs other)
link_main_links link tree typed fs content other laws there free1 free2 =
    let path = found_path tree typed in
    let (fs1, e1, h1) = laws.made fs path hard_link content there free1 in
    let there1 : fs1 path ≡ some content =
      h1 path ∙ kept (str_eq path hard_link) content (fs path) there in
    let free : fs1 soft_link ≡ none = h1 soft_link ∙ rw differ free2 in
    let (fs2, e2, h2) = laws.made fs1 path soft_link content there1 free in
    ap (λ (g : Files). g other) (link_main-of link tree typed fs fs1 fs2 e1 e2)
    ∙ h2 other
    ∙ ap (λ r. if str_eq other soft_link then some content else r) (h1 other)
