-- ===== src/Tests/Listing.antt =====
-- The list of the servers at a concrete input.
use gemtek_sw_training.Prelude.{
  ltb, length, replicate, All, ℕ, suc, ◌≡◌, refl, true, false, ◌&&◌, some, List, [], ◌∷◌, arith,
  Bytes, codes,
}
use gemtek_sw_training.CString.{has_char, starts_with}
use gemtek_sw_training.CString.Search.{Lacks, has_char-false}
use gemtek_sw_training.FileHandle.{Files}
use gemtek_sw_training.Speedtest.Server.{zero_server}
use gemtek_sw_training.Speedtest.Server.Fields.{IsField}
use gemtek_sw_training.Speedtest.Nearest.{get_nearest_server}
use gemtek_sw_training.Speedtest.Nearest.Result.{IsNearest}
use gemtek_sw_training.Speedtest.Nearest.Listing.{
  Entry, Line, server, other, text_of_line, listing, IsEntry, IsOther, IsListing,
}
use gemtek_sw_training.Speedtest.Nearest.Listed.{named_servers, get_nearest_server-listing}
use gemtek_sw_training.Tests.Servers.{toy, total, trans}

pub field :
    (s : Bytes)
    → has_char b'"' s ≡ false
    → has_char 0 s ≡ false
    → ltb 0 (length s) && ltb (length s) 64 ≡ true
    → IsField s
field s q n l = record {
  no_quote = (has_char-false b'"' s).0 q;
  no_nul = (has_char-false 0 s).0 n;
  some_byte = ground arith;
  fits = ground arith;
}

abbrev vadso : Entry
vadso = record {
  url = codes "http://a/upload.php";
  lat = codes "70.0";
  lon = codes "29.7";
  name = codes "Vadso";
  country = codes "Norway";
  more = codes " cc=\"NO\"/>";
}

abbrev sample : List Line
sample = server vadso ∷ server (record vadso { name = codes "B" }) ∷ other (codes "</servers>") ∷ []

abbrev head : List Bytes
head = codes "<settings>" ∷ []

abbrev sample_file : Files
sample_file name = some (listing head sample)

lacks : (c : ℕ) (s : Bytes) → has_char c s ≡ false → Lacks c s
lacks c s e = (has_char-false c s).0 e

-- A server with this name.
entry : (name : Bytes) → IsField name → IsEntry (record vadso { name = name })
unfolding has_char
entry name h = record {
  url_ok = field (codes "http://a/upload.php") refl refl refl;
  lat_ok = field (codes "70.0") refl refl refl;
  lon_ok = field (codes "29.7") refl refl refl;
  name_ok = h;
  country_ok = field (codes "Norway") refl refl refl;
}

head-IsOther : All IsOther head
unfolding has_char starts_with
head-IsOther = (
  (refl, lacks 0 (codes "<settings>") refl, (lacks b'\n' (codes "<settings>") refl, omega arith)),
  tt,
)

sample-IsListing : All IsListing sample
unfolding has_char starts_with
sample-IsListing = (
  (
    entry (codes "Vadso") (field (codes "Vadso") refl refl refl),
    lacks 0 (text_of_line (server vadso)) refl,
    (lacks b'\n' (text_of_line (server vadso)) refl, omega arith),
  ),
  (
    (
      entry (codes "B") (field (codes "B") refl refl refl),
      lacks 0 (text_of_line (server (record vadso { name = codes "B" }))) refl,
      (lacks b'\n' (text_of_line (server (record vadso { name = codes "B" }))) refl, omega arith),
    ),
    (
      (
        refl,
        lacks 0 (codes "</servers>") refl,
        (lacks b'\n' (codes "</servers>") refl, omega arith),
      ),
      tt,
    ),
  ),
)

get_nearest_server-listing_example :
    IsNearest toy 10
      (suc (length (named_servers toy 3 4 sample)))
      (named_servers toy 3 4 sample)
      (get_nearest_server toy sample_file 3 4 (replicate 10 (zero_server toy)))
get_nearest_server-listing_example =
    get_nearest_server-listing toy sample_file 3 4 head sample 10 total trans refl head-IsOther
      sample-IsListing
