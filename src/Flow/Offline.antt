-- ===== src/Flow/Offline.antt =====
-- Mini-Project/Application/main.c without a network.
use gemtek_sw_training.Prelude.{
  ◌==◌, Bool-cases, ℕ, ◌≡◌, refl, ◌∙◌, ◌≢◌, inl, inr, Bool, false, ℤ, pos, negsuc, none, some,
  arith, Bytes,
}
use gemtek_sw_training.FileHandle.{Files}
use gemtek_sw_training.Http.{host_token, get_ipv4_addr, init_connection, get_http_file, tmp_path}
use gemtek_sw_training.Speedtest.Double.{Double}
use gemtek_sw_training.Speedtest.Server.{SockAddr}
use gemtek_sw_training.Speedtest.Client.{get_ip_address_position}
use gemtek_sw_training.Speedtest.Best.{Probe, Locals}
use gemtek_sw_training.Flow.{
  crashes, goes, Exchange, Network, config_request_url, speedtest_domain_name,
  speedtest_servers_domain_name, servers_location_request_url, get_file, fetch, fetch_files,
  use_files, find_server,
}

-- No name resolves; or, without HTTPS, no connection can be made.
pub data IsOffline (net : Network) : Bool → Type 0 where
  unresolved :
      (use_https : Bool) → ((name : Bytes) → net.resolve name ≡ none) → IsOffline net use_https
  unconnected :
      ((a : SockAddr) (domain url : Bytes) → (net.exchange a domain url).status ≢ pos 0)
      → IsOffline net false

get_ipv4_addr_unresolved :
    (net : Network) (domain : Bytes) (a : SockAddr)
    → ((name : Bytes) → net.resolve name ≡ none)
    → get_ipv4_addr net.resolve domain a ≡ (0, a)
unfolding get_ipv4_addr
get_ipv4_addr_unresolved net domain a h = rw (h (host_token domain), get_ipv4_addr) refl

init_connection_unconnected :
    (sockfd status : ℤ) → status ≢ pos 0 → init_connection sockfd status ≡ negsuc 0
unfolding init_connection
init_connection_unconnected sockfd status h = grind arith

-- A connection that fails counts as success.
get_file_unconnected :
    (x : Exchange) (fs : Files) (domain url : Bytes)
    → x.status ≢ pos 0
    → get_file false x fs domain url ≡ some (negsuc 0, fs)
unfolding get_file get_http_file
get_file_unconnected x fs domain url h =
    rw (init_connection_unconnected x.sockfd x.status h, get_http_file) refl

-- The fetch is passed over: it neither ends the program nor changes a file.
fetch-IsOffline :
    (use_https : Bool) (net : Network) (domain url : Bytes) (a : SockAddr) (fs : Files)
    → IsOffline net use_https
    → (b : SockAddr) × (fetch use_https net domain url (a, fs) ≡ goes (b, fs))
fetch-IsOffline use_https net domain url a fs (unresolved u h) =
    (a, unfold fetch in rw (get_ipv4_addr_unresolved net domain a h) refl)
fetch-IsOffline use_https net domain url a fs (unconnected h) =
    let r = get_ipv4_addr net.resolve domain a in
    (
      r.1,
      unfold fetch in
          elim (Bool-cases (r.0 == 1)) [
            | inl e ↦
                rw
                  (
                    e,
                    get_file_unconnected (net.exchange r.1 domain url) fs domain url
                        (h r.1 domain url),
                  )
                  refl
            | inr e ↦ rw e refl
          ],
    )

-- If no name resolves, or, without HTTPS, no connection can be made, then neither fetch ends the
-- program: it goes on with the files that earlier runs have left.
pub find_server-IsOffline :
    (F : Double) (use_https : Bool) (net : Network) (probe : ℕ → Bytes → Bytes → Probe) (v : Locals)
    (servinfo : SockAddr) (fs : Files)
    → IsOffline net use_https
    → find_server F use_https net probe v servinfo fs ≡ use_files F probe v fs
find_server-IsOffline F use_https net probe v servinfo fs h =
    unfold find_server fetch_files in rw (one.1, two.1) refl
  where
    one :
        (b : SockAddr) × (fetch use_https net speedtest_domain_name config_request_url
            (servinfo, fs)
          ≡ goes (b, fs))
    one = fetch-IsOffline use_https net speedtest_domain_name config_request_url servinfo fs h

    two :
        (b : SockAddr) × (fetch use_https net speedtest_servers_domain_name
            servers_location_request_url
            (one.0, fs)
          ≡ goes (b, fs))
    two =
        fetch-IsOffline use_https net speedtest_servers_domain_name servers_location_request_url
          one.0 fs h

-- And where there is no file of an earlier run, `fclose` is called with the null pointer.
pub find_server_crashes :
    (F : Double) (use_https : Bool) (net : Network) (probe : ℕ → Bytes → Bytes → Probe) (v : Locals)
    (servinfo : SockAddr) (fs : Files)
    → IsOffline net use_https
    → fs (tmp_path config_request_url) ≡ none
    → find_server F use_https net probe v servinfo fs ≡ crashes
find_server_crashes F use_https net probe v servinfo fs h e =
    find_server-IsOffline F use_https net probe v servinfo fs h
    ∙ (unfold use_files get_ip_address_position in rw (e, use_files, get_ip_address_position) refl)
