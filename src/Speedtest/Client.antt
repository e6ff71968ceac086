-- ===== src/Speedtest/Client.antt =====
-- `get_ip_address_position` of Mini-Project/Application/src/http.c and Mini-Project/Ref/main.c.
pub mod Position
use gemtek_sw_training.Prelude.{
  if◌then◌else◌, ℕ, pos, Option, none, some, List, [], ◌∷◌, Bytes, codes,
}
use gemtek_sw_training.CString.{lines, starts_with, c_str}
use gemtek_sw_training.FileHandle.{Files}
use gemtek_sw_training.Http.{tmp_path}
use gemtek_sw_training.Speedtest.Double.{Double}
use gemtek_sw_training.Speedtest.Server.{ClientData, quoted_fields}

-- `lat` and `lon` of the function.
pub record Coordinates : Type 0 where
  pub lat : Bytes
  pub lon : Bytes

module _ (F : Double) where
  -- `memset(&client_data, 0, sizeof(client_data_t))`
  abbrev pub zero_client : ClientData F
  zero_client = record {
    ip_addr = [];
    latitude = F.of_int (pos 0);
    longitude = F.of_int (pos 0);
    isp = [];
  }

  -- `sscanf` stores the fields that it could read, in order; what it did not read keeps its value.
  abbrev pub scanned_client : List Bytes → ClientData F → Coordinates → ClientData F × Coordinates
  scanned_client [] d b = (d, b)
  scanned_client (ip ∷ []) d b = (record d { ip_addr = ip }, b)
  scanned_client (ip ∷ la ∷ []) d b = (record d { ip_addr = ip }, record b { lat = la })
  scanned_client (ip ∷ la ∷ lo ∷ []) d b =
      (record d { ip_addr = ip }, record { lat = la; lon = lo })
  scanned_client (ip ∷ la ∷ lo ∷ isp' ∷ more) d b =
      (record d { ip_addr = ip; isp = isp' }, record { lat = la; lon = lo })

  abbrev pub stored_client : List Bytes → ClientData F → ClientData F
  stored_client fields d =
      let r = scanned_client fields d (record { lat = []; lon = [] }) in
      record r.0 { latitude = F.atof r.1.lat; longitude = F.atof r.1.lon }

  unfoldable pub read_client : Bytes → ClientData F → ClientData F
  read_client line d = stored_client (quoted_fields 4 line) d

  -- The `while (fgets(…))` loop, which ends at the first line of a client.
  unfoldable pub find_client : List Bytes → ClientData F → ClientData F
  unfolding read_client
  find_client [] d = d
  find_client (l ∷ ls) d =
      let rest = find_client ls d in
      if starts_with (codes "<client") (c_str l) then read_client (c_str l) d else rest

  -- The code and `client_data`. `none`: the file cannot be opened, and `fclose` gets the null pointer.
  unfoldable pub get_ip_address_position : Files → Bytes → ClientData F → Option (ℕ × ClientData F)
  unfolding find_client
  get_ip_address_position fs filename d = elim (fs (tmp_path filename)) [
    | none ↦ none
    | some content ↦ some (1, find_client (lines 510 content) d)
  ]
