-- ===== src/Speedtest/Nearest.antt =====
-- `get_nearest_server` of src/speedtest_server.c: the table of the nearest servers.
pub mod Table
pub mod Order
pub mod Ranking
pub mod Tags
pub mod Result
pub mod Listing
pub mod Listed
use gemtek_sw_training.Prelude.{
  ltb, ◌==◌, if◌then◌else◌, ℕ, ◌+◌, Bool, true, pos, none, some, List, [], ◌∷◌, Bytes, codes,
}
use gemtek_sw_training.CString.{lines, starts_with, c_str}
use gemtek_sw_training.FileHandle.{Files}
use gemtek_sw_training.Speedtest.Double.{Double}
use gemtek_sw_training.Speedtest.Server.{ServerData, zero_server, quoted_fields}

abbrev pub servers_path : Bytes
servers_path = codes "/tmp/speedtest-servers-static.php?"

module _ (F : Double) where
  open F use {Number, of_int, add, sub, mul, div, pow, atan2, sin, cos, sqrt, pi, le, atof}

  abbrev two : Number
  two = of_int (pos 2)

  -- `x * M_PI / 180`
  abbrev radians : Number → Number
  radians x = div (mul x pi) (of_int (pos 180))

  pub calc_distance : Number → Number → Number → Number → Number
  calc_distance lat1 lon1 lat2 lon2 =
      let dlat = radians (sub lat2 lat1) in
      let dlon = radians (sub lon2 lon1) in
      let a =
        add (pow (sin (div dlat two)) two)
          (mul (mul (cos (radians lat1)) (cos (radians lat2))) (pow (sin (div dlon two)) two)) in
      let c = mul two (atan2 (sqrt a) (sqrt (sub (of_int (pos 1)) a))) in mul (of_int (pos 6371)) c

  -- What a line of the list says of a server, with its distance.
  pub record Candidate : Type 0 where
    pub url : Bytes
    pub latitude : Number
    pub longitude : Number
    pub name : Bytes
    pub country : Bytes
    pub distance : Number

  -- the assignments at 56-61 and 78-83: the other fields stay
  abbrev pub store : Candidate → ServerData F → ServerData F
  store c s = record s {
    url = c.url;
    latitude = c.latitude;
    longitude = c.longitude;
    name = c.name;
    country = c.country;
    distance = c.distance;
  }

  abbrev pub listed : ServerData F → Candidate
  listed s = record {
    url = s.url;
    latitude = s.latitude;
    longitude = s.longitude;
    name = s.name;
    country = s.country;
    distance = s.distance;
  }

  -- The `for (j …)` loop: slot `j` takes over the fields of slot `j - 1`; the last slot is cleared first.
  shift : ServerData F → List (ServerData F) → List (ServerData F)
  shift before [] = []
  shift before (s ∷ []) = store (listed before) (zero_server F) ∷ []
  shift before (s ∷ t ∷ rest) = store (listed before) s ∷ shift s (t ∷ rest)

  -- From slot `i` on, when the new server goes there.
  place : Candidate → List (ServerData F) → List (ServerData F)
  place c [] = []
  place c (s ∷ []) = store c (zero_server F) ∷ []
  place c (s ∷ t ∷ rest) = store c s ∷ shift s (t ∷ rest)

  abbrev pub is_free : ServerData F → Bool
  is_free s = elim s.url [ [] ↦ true | c ∷ r ↦ c == 0 ]

  -- The `for (i …)` loop over the slots.
  pub insert_server : Candidate → List (ServerData F) → List (ServerData F)
  insert_server c [] = []
  insert_server c (s ∷ rest) =
      if is_free s
      then store c s ∷ rest
      else if le c.distance s.distance
      then place c (s ∷ rest)
      else s ∷ insert_server c rest

  -- The buffers of `sscanf`, which keep their contents from line to line.
  pub record Buffers : Type 0 where
    pub url : Bytes
    pub lat : Bytes
    pub lon : Bytes
    pub name : Bytes
    pub country : Bytes

  -- `sscanf` stores the fields that it could read, in order.
  scanned : List Bytes → Buffers → Buffers
  scanned [] b = b
  scanned (u ∷ []) b = record b { url = u }
  scanned (u ∷ la ∷ []) b = record b { url = u; lat = la }
  scanned (u ∷ la ∷ lo ∷ []) b = record b { url = u; lat = la; lon = lo }
  scanned (u ∷ la ∷ lo ∷ n ∷ []) b = record b { url = u; lat = la; lon = lo; name = n }
  scanned (u ∷ la ∷ lo ∷ n ∷ c ∷ more) b = record {
    url = u;
    lat = la;
    lon = lo;
    name = n;
    country = c;
  }

  unfoldable pub read_server : Bytes → Buffers → Buffers
  unfolding scanned
  read_server line b = scanned (quoted_fields 5 line) b

  unfoldable pub candidate : Number → Number → Buffers → Candidate
  candidate lat_c lon_c b =
      let lat_s = atof b.lat in
      let lon_s = atof b.lon in
      record {
        url = b.url;
        latitude = lat_s;
        longitude = lon_s;
        name = b.name;
        country = b.country;
        distance = calc_distance lat_c lon_c lat_s lon_s;
      }

  pub record Progress : Type 0 where
    pub slots : List (ServerData F)
    pub buffers : Buffers
    pub count : ℕ

  -- One round of the `while (fgets(…))` loop.
  pub read_line : Number → Number → Bytes → Progress → Progress
  read_line lat_c lon_c line p =
      if starts_with (codes "<server") line
      then (let b = read_server line p.buffers in
          record {
            slots = insert_server (candidate lat_c lon_c b) p.slots;
            buffers = b;
            count = p.count + 1;
          })
      else p

  pub read_lines : Number → Number → List Bytes → Progress → Progress
  read_lines lat_c lon_c [] p = p
  read_lines lat_c lon_c (l ∷ ls) p = read_lines lat_c lon_c ls (read_line lat_c lon_c (c_str l) p)

  -- The returned code and the table. `fgets(line, sizeof(line) - 1, fp)` reads up to 510 bytes.
  pub get_nearest_server : Files → Number → Number → List (ServerData F) → ℕ × List (ServerData F)
  get_nearest_server fs lat_c lon_c slots = elim (fs servers_path) [
    | none ↦ (0, slots)
    | some content ↦
        let start : Progress = record {
          slots = slots;
          buffers = record { url = []; lat = []; lon = []; name = []; country = [] };
          count = 0;
        } in
        let final = read_lines lat_c lon_c (lines 510 content) start in
        (if ltb 0 final.count then 1 else 0, final.slots)
  ]
