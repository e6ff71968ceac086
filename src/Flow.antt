-- ===== src/Flow.antt =====
-- Mini-Project/Application/main.c: the order of the steps, and what ends the program early. What the
-- network answers is an argument.
pub mod Offline
pub mod Chosen
pub mod Speed
pub mod Lost
pub mod Program
pub mod Sockets
pub mod HandleTime
use gemtek_sw_training.Prelude.{
  ◌==◌, if◌then◌else◌, get_or, replicate, ℕ, Bool, true, false, ◌||◌, ℤ, pos, negsuc, magnitude,
  lt_ℤ, eq_ℤ, Option, none, some, List, Bytes, codes,
}
use gemtek_sw_training.CString.{str_eq}
use gemtek_sw_training.FileHandle.{Files}
use gemtek_sw_training.Http.{
  AddrInfo, get_ipv4_addr, init_connection, get_http_file, get_https_file, Round,
}
use gemtek_sw_training.Speedtest.Double.{Double}
use gemtek_sw_training.Speedtest.Server.{SockAddr, ServerData, ClientData, zero_server}
use gemtek_sw_training.Speedtest.Client.{zero_client, get_ip_address_position}
use gemtek_sw_training.Speedtest.Nearest.{get_nearest_server}
use gemtek_sw_training.Speedtest.Best.{Probe, Locals, get_best_server}

-- What a step of the program comes to: it still waits for the network, `fclose` gets the null pointer,
-- the program returns a code, or it goes on.
pub data Outcome (A : Type 0) : Type 0 where
  waits : Outcome A
  crashes : Outcome A
  exits : ℤ → Outcome A
  goes : A → Outcome A

abbrev pub after : {A B : Type 0} → Outcome A → (A → Outcome B) → Outcome B
after waits next = waits
after crashes next = crashes
after (exits code) next = exits code
after (goes a) next = next a

-- The calls of one exchange: what `socket`, `connect` and `send` return, or `SSL_connect` and
-- `SSL_write`, and the rounds of `recv` or `SSL_read`.
pub record Exchange : Type 0 where
  pub sockfd : ℤ
  pub status : ℤ
  pub sent : ℤ
  pub ssl_status : ℤ
  pub ssl_sent : ℤ
  pub rounds : List Round

-- `getaddrinfo`, and an exchange with an address, for a domain and a URL.
pub record Network : Type 0 where
  pub resolve : Bytes → Option (List AddrInfo)
  pub exchange : SockAddr → Bytes → Bytes → Exchange

abbrev pub speedtest_domain_name : Bytes
speedtest_domain_name = codes "www.speedtest.net"

abbrev pub speedtest_servers_domain_name : Bytes
speedtest_servers_domain_name = codes "c.speedtest.net"

abbrev pub config_request_url : Bytes
config_request_url = codes "speedtest-config.php"

abbrev pub servers_location_request_url : Bytes
servers_location_request_url = codes "speedtest-servers-static.php?"

abbrev pub nearest_servers_num : ℕ
nearest_servers_num = 10

-- The flag is `USE_HTTPS`.
unfoldable pub get_file : Bool → Exchange → Files → Bytes → Bytes → Option (ℤ × Files)
unfolding get_http_file get_https_file init_connection
get_file use_https x fs domain_name url =
    if use_https
    then get_https_file x.ssl_status x.ssl_sent x.rounds fs url
    else get_http_file (init_connection x.sockfd x.status) x.sent x.rounds fs domain_name url url

-- `-1 == get_https_file(…)` and `!get_http_file(…)`
abbrev pub is_failure : Bool → ℤ → Bool
is_failure use_https code = if use_https then eq_ℤ code (negsuc 0) else eq_ℤ code (pos 0)

abbrev pub check_file : Bool → SockAddr → Option (ℤ × Files) → Outcome (SockAddr × Files)
check_file use_https servinfo none = waits
check_file use_https servinfo (some (code, fs)) =
    if is_failure use_https code then exits (negsuc 0) else goes (servinfo, fs)

-- One of the two blocks that fetch a file, from `servinfo` and the files on.
unfoldable pub fetch :
    Bool → Network → Bytes → Bytes → SockAddr × Files → Outcome (SockAddr × Files)
unfolding get_ipv4_addr get_file
fetch use_https net domain_name url (servinfo, fs) =
    let r = get_ipv4_addr net.resolve domain_name servinfo in
    if r.0 == 1
    then check_file use_https r.1
        (get_file use_https (net.exchange r.1 domain_name url) fs domain_name url)
    else goes (r.1, fs)

unfoldable pub fetch_files : Bool → Network → SockAddr × Files → Outcome (SockAddr × Files)
unfolding fetch
fetch_files use_https net start =
    after (fetch use_https net speedtest_domain_name config_request_url start)
      (λ r. fetch use_https net speedtest_servers_domain_name servers_location_request_url r)

-- `get_list_servers` of src/speedtest_server.c: one protocol or the other, or nothing.
unfoldable pub get_list_servers : Bytes → Network → SockAddr × Files → Outcome (SockAddr × Files)
unfolding fetch_files
get_list_servers protocol net start =
    if str_eq protocol (codes "http")
    then fetch_files false net start
    else if str_eq protocol (codes "https")
    then fetch_files true net start
    else goes start

module _ (F : Double) where
  -- `best_server_index < 0 || best_server_index > NEAREST_SERVERS_NUM`
  unfoldable pub check_index : ℤ × List (ServerData F) → Outcome (ServerData F)
  check_index (best_server_index, nearest_servers) =
      if lt_ℤ best_server_index (pos 0) || lt_ℤ (pos nearest_servers_num) best_server_index
      then exits (negsuc 0)
      else goes (get_or nearest_servers (magnitude best_server_index) (zero_server F))

  unfoldable pub choose :
      (ℕ → Bytes → Bytes → Probe) → Locals → Files → ClientData F → Outcome (ServerData F)
  unfolding get_best_server check_index
  choose probe v fs client =
      let nearest =
        get_nearest_server F fs client.latitude client.longitude
          (replicate nearest_servers_num (zero_server F)) in
      if nearest.0 == 0 then exits (pos 0) else check_index (get_best_server F probe v nearest.1)

  -- `main` from the second file on
  unfoldable pub use_files : (ℕ → Bytes → Bytes → Probe) → Locals → Files → Outcome (ServerData F)
  unfolding get_ip_address_position choose
  use_files probe v fs = elim (get_ip_address_position F fs config_request_url (zero_client F)) [
    | none ↦ crashes
    | some r ↦ choose probe v fs r.1
  ]

  -- `main` up to the timer: the server that is tested.
  unfoldable pub find_server :
      Bool
      → Network
      → (ℕ → Bytes → Bytes → Probe)
      → Locals
      → SockAddr
      → Files
      → Outcome (ServerData F)
  unfolding fetch_files use_files
  find_server use_https net probe v servinfo fs =
      after (fetch_files use_https net (servinfo, fs)) (λ r. use_files probe v r.1)
