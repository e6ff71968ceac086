-- ===== src/Speedtest/Nearest/Listed.antt =====
-- `get_nearest_server` on a list of the servers as the service writes it.
use gemtek_sw_training.Prelude.{
  length, replicate, All, All-append, ℕ, suc, ◌≡◌, refl, sym, ap, ◌∙◌, ◌≢◌, true, false, some, List,
  [], ◌∷◌, ◌++◌, arith, Bytes,
}
use gemtek_sw_training.CString.{has_char, lines, starts_with, c_str}
use gemtek_sw_training.CString.Search.{has_char-false, c_str-Lacks}
use gemtek_sw_training.CString.Texts.{ended, IsLine, lines-text_of}
use gemtek_sw_training.Speedtest.Double.{Double}
use gemtek_sw_training.Speedtest.Server.{zero_server, quoted_fields}
use gemtek_sw_training.Speedtest.Server.Fields.{IsField}
use gemtek_sw_training.Speedtest.Nearest.{
  Candidate, Buffers, scanned, read_server, candidate, calc_distance, servers_path,
  get_nearest_server,
}
use gemtek_sw_training.Speedtest.Nearest.Ranking.{
  candidates, is_server, candidates_server, candidates_other,
}
use gemtek_sw_training.Speedtest.Nearest.Table.{IsNamed}
use gemtek_sw_training.Speedtest.Nearest.Result.{
  servers_of, server_lines, no_buffers, IsNearest, get_nearest_server-IsNearest,
}
use gemtek_sw_training.Speedtest.Nearest.Tags.{skip_unnamed, skip_one, skip_unnamed-IsNamed}
use gemtek_sw_training.FileHandle.{Files}
use mathlib.Core.Path.{subst}
use gemtek_sw_training.Speedtest.Nearest.Listing.{
  Entry, Line, server, other, server_line, IsEntry, IsOther, IsListing, entry-quoted_fields,
  texts_of_lines, tag, listing, newline_server_line,
}

module _ (F : Double) where
  -- The servers that these lines name, seen from a place.
  unfoldable pub named_servers : F.Number → F.Number → List Line → List (Candidate F)
  named_servers lat lon [] = []
  named_servers lat lon (server e ∷ ls) =
      record {
        url = e.url;
        latitude = F.atof e.lat;
        longitude = F.atof e.lon;
        name = e.name;
        country = e.country;
        distance = calc_distance F lat lon (F.atof e.lat) (F.atof e.lon);
      }
      ∷ named_servers lat lon ls
  named_servers lat lon (other l ∷ ls) = named_servers lat lon ls

  entry_buffers : Entry → Buffers F
  entry_buffers e = record {
    url = e.url;
    lat = e.lat;
    lon = e.lon;
    name = e.name;
    country = e.country;
  }

  read_server-server_line :
      (e : Entry) (more : Bytes) (b : Buffers F)
      → IsEntry e
      → read_server F (server_line e more) b ≡ entry_buffers e
  unfolding read_server scanned entry_buffers
  read_server-server_line e more b h = ap (λ fs. scanned F fs b) (entry-quoted_fields e more h)

  other_line :
      (lat lon : F.Number) (l : Bytes) (ls : List Bytes) (b : Buffers F)
      → IsOther l
      → candidates F lat lon ((l ++ b'\n' ∷ []) ∷ ls) b ≡ candidates F lat lon ls b
  other_line lat lon l ls b (h, n, k) = candidates_other F lat lon (l ++ b'\n' ∷ []) ls b skipped
    where
      skipped : is_server F (l ++ b'\n' ∷ []) ≡ false
      skipped =
          unfold is_server in
          rw
            (c_str-Lacks (l ++ b'\n' ∷ [])
              (All-append (λ x. x ≢ 0) l (b'\n' ∷ []) n (omega arith, tt)))
            h

  candidates-ended :
      (lat lon : F.Number) (ls : List Line) (b : Buffers F)
      → All IsListing ls
      → candidates F lat lon (ended (texts_of_lines ls)) b ≡ named_servers lat lon ls
  unfolding ended texts_of_lines named_servers candidate entry_buffers
  candidates-ended lat lon [] b h = unfold candidates in refl
  candidates-ended lat lon (server e ∷ ls) b ((h, n, l), hs) =
      candidates_server F lat lon (server_line e e.more ++ b'\n' ∷ []) (ended (texts_of_lines ls)) b
        marked
      ∙ rw read (
          ap (λ cs. candidate F lat lon (entry_buffers e) ∷ cs)
            (candidates-ended lat lon ls (entry_buffers e) hs))
    where
      marked : is_server F (server_line e e.more ++ b'\n' ∷ []) ≡ true
      marked = unfold is_server in rw (newline_server_line e n) (unfold starts_with in refl)

      read : read_server F (c_str (server_line e e.more ++ b'\n' ∷ [])) b ≡ entry_buffers e
      read =
          ap (λ s. read_server F s b) (newline_server_line e n)
          ∙ read_server-server_line e (e.more ++ b'\n' ∷ []) b h
  candidates-ended lat lon (other l ∷ ls) b (h, hs) =
      other_line lat lon l (ended (texts_of_lines ls)) b h ∙ candidates-ended lat lon ls b hs

  listing-IsLine : (ls : List Line) → All IsListing ls → All (IsLine 510) (texts_of_lines ls)
  unfolding texts_of_lines
  listing-IsLine [] h = tt
  listing-IsLine (server e ∷ ls) ((h, n, l), hs) = (l, listing-IsLine ls hs)
  listing-IsLine (other l ∷ ls) ((h, n, k), hs) = (k, listing-IsLine ls hs)

  -- What the line `<servers>` counts as.
  no_server : F.Number → F.Number → Candidate F
  no_server lat lon = candidate F lat lon (no_buffers F)

  candidates-listing :
      (lat lon : F.Number) (before : List Bytes) (ls : List Line)
      → All IsOther before
      → All IsListing ls
      → candidates F lat lon (ended (before ++ tag ∷ texts_of_lines ls)) (no_buffers F)
        ≡ no_server lat lon ∷ named_servers lat lon ls
  unfolding ended no_server
  candidates-listing lat lon [] ls h hs =
      candidates_server F lat lon (tag ++ b'\n' ∷ []) (ended (texts_of_lines ls)) (no_buffers F)
        marked
      ∙ rw read (
          ap (λ cs. candidate F lat lon (no_buffers F) ∷ cs)
            (candidates-ended lat lon ls (no_buffers F) hs))
    where
      marked : is_server F (tag ++ b'\n' ∷ []) ≡ true
      marked = unfold is_server c_str starts_with in refl

      read : read_server F (c_str (tag ++ b'\n' ∷ [])) (no_buffers F) ≡ no_buffers F
      read = unfold c_str read_server quoted_fields in refl
  candidates-listing lat lon (l ∷ before) ls (h, h') hs =
      other_line lat lon l (ended (before ++ tag ∷ texts_of_lines ls)) (no_buffers F) h
      ∙ candidates-listing lat lon before ls h' hs

  before-IsLine :
      (before : List Bytes) (ls : List Line)
      → All IsOther before
      → All IsListing ls
      → All (IsLine 510) (before ++ tag ∷ texts_of_lines ls)
  unfolding has_char
  before-IsLine [] ls h hs =
      (((has_char-false b'\n' tag).0 refl, omega arith), listing-IsLine ls hs)
  before-IsLine (l ∷ before) ls ((h, n, k), h') hs = (k, before-IsLine before ls h' hs)

  candidates-file :
      (lat lon : F.Number) (before : List Bytes) (ls : List Line)
      → All IsOther before
      → All IsListing ls
      → candidates F lat lon (lines 510 (listing before ls)) (no_buffers F)
        ≡ no_server lat lon ∷ named_servers lat lon ls
  unfolding listing
  candidates-file lat lon before ls h hs =
      ap (λ ts. candidates F lat lon ts (no_buffers F))
        (lines-text_of 510 (before ++ tag ∷ texts_of_lines ls) (before-IsLine before ls h hs))
      ∙ candidates-listing lat lon before ls h hs

first_byte : (s : Bytes) → IsField s → (x : ℕ) × (r : Bytes) × (s ≡ x ∷ r) × (x ≢ 0)
first_byte [] h = absurd (let k = h.some_byte in omega arith)
first_byte (x ∷ r) h = (x, r, refl, h.no_nul.0)

named_servers-IsNamed :
    (F : Double) (lat lon : F.Number) (ls : List Line)
    → All IsListing ls
    → All (IsNamed F) (named_servers F lat lon ls)
unfolding named_servers
named_servers-IsNamed F lat lon [] h = tt
named_servers-IsNamed F lat lon (server e ∷ ls) ((h, n, l), hs) =
    (first_byte e.url h.url_ok, named_servers-IsNamed F lat lon ls hs)
named_servers-IsNamed F lat lon (other l ∷ ls) (h, hs) = named_servers-IsNamed F lat lon ls hs

module _ (F : Double) where
  -- The servers of such a file are those of its lines, in their order.
  pub servers_of-listing :
      (lat lon : F.Number) (before : List Bytes) (ls : List Line)
      → All IsOther before
      → All IsListing ls
      → servers_of F lat lon (listing before ls) ≡ named_servers F lat lon ls
  unfolding no_server candidate
  servers_of-listing lat lon before ls h hs =
      ap (skip_unnamed F) (candidates-file F lat lon before ls h hs)
      ∙ skip_one F (no_server F lat lon) (named_servers F lat lon ls) refl
      ∙ skip_unnamed-IsNamed F (named_servers F lat lon ls) (named_servers-IsNamed F lat lon ls hs)

  -- The line `<servers>` is counted as well.
  pub server_lines-listing :
      (lat lon : F.Number) (before : List Bytes) (ls : List Line)
      → All IsOther before
      → All IsListing ls
      → server_lines F lat lon (listing before ls) ≡ suc (length (named_servers F lat lon ls))
  server_lines-listing lat lon before ls h hs = ap length (candidates-file F lat lon before ls h hs)

-- Run on a cleared table of `n` slots and a file with the line `<servers>`, lines that do not start with
-- `<server` before it, and behind it lines of servers, as the comment of the function shows them, and
-- others that do not start with `<server`: `get_nearest_server` leaves the `n` nearest of these servers
-- in the table, in order of distance, each with the texts of its line and the numbers that `atof` makes
-- of them. It returns 1, even if there is no server, since it counts the line `<servers>`. The texts
-- of the servers are not empty and fit into the buffers, and so do the lines; the distances are totally
-- ordered, which holds without NaN.
pub get_nearest_server-listing :
    (F : Double) (fs : Files) (lat lon : F.Number) (before : List Bytes) (ls : List Line) (n : ℕ)
    → ((a b : F.Number) → F.le a b ≡ false → F.le b a ≡ true)
    → ((a b c : F.Number) → F.le a b ≡ true → F.le b c ≡ true → F.le a c ≡ true)
    → fs servers_path ≡ some (listing before ls)
    → All IsOther before
    → All IsListing ls
    → IsNearest F n
        (suc (length (named_servers F lat lon ls)))
        (named_servers F lat lon ls)
        (get_nearest_server F fs lat lon (replicate n (zero_server F)))
get_nearest_server-listing F fs lat lon before ls n total trans e h hs =
    subst
      (λ cs.
        IsNearest F n (suc (length (named_servers F lat lon ls))) cs
          (get_nearest_server F fs lat lon (replicate n (zero_server F))))
      (servers_of-listing F lat lon before ls h hs)
      (subst
        (λ k.
          IsNearest F n k (servers_of F lat lon (listing before ls))
            (get_nearest_server F fs lat lon (replicate n (zero_server F))))
        (server_lines-listing F lat lon before ls h hs)
        (get_nearest_server-IsNearest F fs lat lon (listing before ls) n total trans e (
          subst (λ cs. All (IsNamed F) cs) (sym (servers_of-listing F lat lon before ls h hs))
            (named_servers-IsNamed F lat lon ls hs))))
