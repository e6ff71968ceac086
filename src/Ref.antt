-- ===== src/Ref.antt =====
-- Mini-Project/Ref/main.c, the earlier version of the speed test in one file. Where a function is that
-- of Mini-Project/Application, it is its definition.
pub mod Common
pub mod Jobs
pub mod Speed
pub mod Same
pub mod Chosen
use gemtek_sw_training.Prelude.{
  ◌==◌, if◌then◌else◌, length, get_or, replicate, ℕ, ℤ, pos, negsuc, magnitude, eq_ℤ, Option, none,
  some, List, [], Bytes,
}
use gemtek_sw_training.CString.{lines}
use gemtek_sw_training.FileHandle.{Files}
use gemtek_sw_training.Http.{AddrInfo, build_http_get, tmp_path, receive_loop, finish}
use gemtek_sw_training.Http as Http
use gemtek_sw_training.Speedtest.Double.{Double}
use gemtek_sw_training.Speedtest.Server.{SockAddr, ServerData, ClientData, zero_server}
use gemtek_sw_training.Speedtest.Client.{zero_client, find_client}
use gemtek_sw_training.Speedtest.Nearest as Nearest
use gemtek_sw_training.Speedtest.Best.{Probe, Locals}
use gemtek_sw_training.Speedtest.Best as Best
use gemtek_sw_training.Flow.{
  Outcome, waits, exits, goes, after, Exchange, Network, config_request_url, speedtest_domain_name,
  speedtest_servers_domain_name, servers_location_request_url,
}

abbrev pub nearest_servers_num : ℕ
nearest_servers_num = 5

abbrev pub get_ipv4_addr : (Bytes → Option (List AddrInfo)) → Bytes → SockAddr → ℕ × SockAddr
get_ipv4_addr resolve domain_name servinfo = Http.get_ipv4_addr resolve domain_name servinfo

-- From what `socket`, `connect` and `send` return, and the rounds.
unfoldable pub get_http_file : Exchange → Files → Bytes → Bytes → Bytes → Option (ℤ × Files)
unfolding finish receive_loop build_http_get
get_http_file x fs domain_name request_url filename =
    if eq_ℤ x.sockfd (negsuc 0)
    then some (pos 0, fs)
    else if eq_ℤ x.status (negsuc 0)
    then some (pos 0, fs)
    else if eq_ℤ x.sent (pos (length (build_http_get domain_name request_url)))
    then finish (pos 1) (pos 0) fs filename (receive_loop x.rounds [])
    else some (pos 0, fs)

module _ (F : Double) where
  -- A file that cannot be opened leaves `client_data` alone.
  unfoldable pub get_ip_address_position : Files → Bytes → ClientData F → ℕ × ClientData F
  unfolding find_client
  get_ip_address_position fs filename d = elim (fs (tmp_path filename)) [
    | none ↦ (1, d)
    | some content ↦ (1, find_client F (lines 510 content) d)
  ]

  abbrev pub calc_distance : F.Number → F.Number → F.Number → F.Number → F.Number
  calc_distance lat1 lon1 lat2 lon2 = Nearest.calc_distance F lat1 lon1 lat2 lon2

  abbrev pub get_nearest_server :
      Files → F.Number → F.Number → List (ServerData F) → ℕ × List (ServerData F)
  get_nearest_server fs lat_c lon_c slots = Nearest.get_nearest_server F fs lat_c lon_c slots

  abbrev pub get_best_server :
      (ℕ → Bytes → Bytes → Probe) → Locals → List (ServerData F) → ℤ × List (ServerData F)
  get_best_server probe v servers = Best.get_best_server F probe v servers

-- `!get_http_file(…)`
abbrev pub check_file : SockAddr → Option (ℤ × Files) → Outcome (SockAddr × Files)
check_file servinfo none = waits
check_file servinfo (some (code, fs)) =
    if eq_ℤ code (pos 0) then exits (pos 0) else goes (servinfo, fs)

unfoldable pub fetch : Network → Bytes → Bytes → SockAddr × Files → Outcome (SockAddr × Files)
unfolding get_http_file
fetch net domain_name url (servinfo, fs) =
    let r = get_ipv4_addr net.resolve domain_name servinfo in
    if r.0 == 0
    then goes (r.1, fs)
    else check_file r.1 (get_http_file (net.exchange r.1 domain_name url) fs domain_name url url)

unfoldable pub fetch_files : Network → SockAddr × Files → Outcome (SockAddr × Files)
unfolding fetch
fetch_files net start =
    after (fetch net speedtest_domain_name config_request_url start)
      (λ r. fetch net speedtest_servers_domain_name servers_location_request_url r)

module _ (F : Double) where
  -- `main` from the second file on; without a best server there is nothing to test.
  unfoldable pub use_files : (ℕ → Bytes → Bytes → Probe) → Locals → Files → Outcome (ServerData F)
  unfolding get_ip_address_position
  use_files probe v fs =
      let client = (get_ip_address_position F fs config_request_url (zero_client F)).1 in
      let nearest =
        get_nearest_server F fs client.latitude client.longitude
          (replicate nearest_servers_num (zero_server F)) in
      if nearest.0 == 0
      then exits (pos 0)
      else (let r = get_best_server F probe v nearest.1 in
          if eq_ℤ r.0 (negsuc 0)
          then exits (pos 0)
          else goes (get_or r.1 (magnitude r.0) (zero_server F)))

  -- `main` up to the timer: the server that is tested.
  unfoldable pub find_server :
      Network → (ℕ → Bytes → Bytes → Probe) → Locals → SockAddr → Files → Outcome (ServerData F)
  unfolding fetch_files use_files
  find_server net probe v servinfo fs =
      after (fetch_files net (servinfo, fs)) (λ r. use_files probe v r.1)
