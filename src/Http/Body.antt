-- ===== src/Http/Body.antt =====
-- What `get_http_file` leaves in its file.
use gemtek_sw_training.Prelude.{
  if◌then◌else◌, ◌≡◌, refl, sym, ap, ◌∙◌, Bool, true, false, ℤ, none, List, [], ◌∷◌, ◌++◌, Bytes,
}
use gemtek_sw_training.CString.{find_text, c_str}
use gemtek_sw_training.FileHandle.{Files}
use gemtek_sw_training.Http.{
  Received, failed, closed, chunk, Round, blank_line, stored_part, receive_loop, get_http_file,
}

-- The rounds in which `select` found data.
unfoldable pub only_selected : List Round → List Round
only_selected [] = []
only_selected (r ∷ rounds) =
    let rest = only_selected rounds in if r.selected then r ∷ rest else rest

-- These chunks and the end of the stream.
unfoldable pub arrive : List Bytes → List Round
arrive [] = record { selected = true; received = closed } ∷ []
arrive (c ∷ cs) = record { selected = true; received = chunk c } ∷ arrive cs

unfoldable pub concat : List Bytes → Bytes
concat [] = []
concat (c ∷ cs) = c ++ concat cs

-- a chunk in which `strstr` finds no blank line
abbrev pub HasNoBlank : Bytes → Type 0
HasNoBlank c = find_text blank_line (c_str c) ≡ none

one_round :
    (b : Bool) (x : Received) (rounds : List Round)
    → ((content : Bytes)
        → receive_loop rounds content ≡ receive_loop (only_selected rounds) content)
    → (content : Bytes)
    → receive_loop (record { selected = b; received = x } ∷ rounds) content
      ≡ receive_loop (only_selected (record { selected = b; received = x } ∷ rounds)) content
unfolding receive_loop only_selected
one_round false x rounds h content = h content
one_round true failed rounds h content = refl
one_round true closed rounds h content = refl
one_round true (chunk c) rounds h content = h (content ++ stored_part c)

receive_loop-only_selected :
    (rounds : List Round) (content : Bytes)
    → receive_loop rounds content ≡ receive_loop (only_selected rounds) content
unfolding only_selected
receive_loop-only_selected [] content = refl
receive_loop-only_selected (r ∷ rounds) content =
    one_round r.selected r.received rounds (λ c. receive_loop-only_selected rounds c) content

only_selected-append :
    (rounds more : List Round)
    → only_selected (rounds ++ more) ≡ only_selected rounds ++ only_selected more
unfolding only_selected
only_selected-append [] more = refl
only_selected-append (r ∷ rounds) more =
    keep r.selected _ (only_selected rounds) (only_selected-append rounds more)
  where
    keep :
        (b : Bool) (xs ys : List Round)
        → xs ≡ ys ++ only_selected more
        → (if b then r ∷ xs else xs) ≡ (if b then r ∷ ys else ys) ++ only_selected more
    keep true xs ys e = ap (◌∷◌ r) e
    keep false xs ys e = e

-- Data that `recv` returns in a round whose `select` timed out is lost: the result and the files are
-- those of a run without that round, whatever it received.
pub timed_out_lost :
    (fd sent : ℤ) (rounds more : List Round) (r : Received) (fs : Files)
    (domain url filename : Bytes)
    → get_http_file fd sent
        (rounds ++ record { selected = false; received = r } ∷ more)
        fs
        domain
        url
        filename
      ≡ get_http_file fd sent (rounds ++ more) fs domain url filename
unfolding get_http_file
timed_out_lost fd sent rounds more r fs domain url filename = rw (same, get_http_file) refl
  where
    skip : only_selected (record { selected = false; received = r } ∷ more) ≡ only_selected more
    skip = unfold only_selected in refl

    same :
        receive_loop (rounds ++ record { selected = false; received = r } ∷ more) []
        ≡ receive_loop (rounds ++ more) []
    same =
        receive_loop-only_selected (rounds ++ record { selected = false; received = r } ∷ more) []
        ∙ ap (λ (x : List Round). receive_loop x [])
            (only_selected-append rounds (record { selected = false; received = r } ∷ more)
              ∙ ap (◌++◌ (only_selected rounds)) skip
              ∙ sym (only_selected-append rounds more))
        ∙ sym (receive_loop-only_selected (rounds ++ more) [])
