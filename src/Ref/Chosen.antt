-- ===== src/Ref/Chosen.antt =====
-- Which server Mini-Project/Ref/main.c tests.
use gemtek_sw_training.Prelude.{
  ◌==◌, if◌then◌else◌, ne→==_false, length, get_or, replicate, All, ℕ, ◌+◌, ◌≤◌, ◌<◌, ◌≡◌, refl,
  ◌∙◌, true, false, pos, negsuc, magnitude, eq_ℤ, some, List, arith, Bytes,
}
use gemtek_sw_training.FileHandle.{Files}
use gemtek_sw_training.Speedtest.Double.{Double}
use gemtek_sw_training.Speedtest.Server.{SockAddr, ServerData, ClientData, zero_server}
use gemtek_sw_training.Speedtest.Client.{zero_client}
use gemtek_sw_training.Speedtest.Nearest.{servers_path}
use gemtek_sw_training.Speedtest.Nearest.Table.{IsNamed}
use gemtek_sw_training.Speedtest.Nearest.Result.{
  servers_of, server_lines, servers_of_few, IsNearest, get_nearest_server-IsNearest,
}
use gemtek_sw_training.Speedtest.Best.{Probe, Locals}
use gemtek_sw_training.Speedtest.Best.Choice.{slot}
use gemtek_sw_training.Flow.{exits, goes, Network, config_request_url}
use gemtek_sw_training.Flow.Chosen.{IsChosen, IsChosen-of, probed_servers}
use gemtek_sw_training.Ref.{
  get_ip_address_position, get_nearest_server, get_best_server, fetch_files, use_files, find_server,
}

-- The client of the first file.
abbrev pub client_of : (F : Double) → Files → ClientData F
client_of F fs = (get_ip_address_position F fs config_request_url (zero_client F)).1

-- When neither fetch ends the program and the list names five servers or more, each with a URL, the
-- earlier version goes on to test a server: one of the five servers of the list that are nearest to the
-- client, none of which answered the probes faster. The distances are totally ordered, which holds
-- without NaN.
pub find_server-IsChosen_of_five :
    (F : Double) (net : Network) (probe : ℕ → Bytes → Bytes → Probe) (v : Locals)
    (servinfo servinfo' : SockAddr) (fs fs' : Files) (content : Bytes)
    → ((a b : F.Number) → F.le a b ≡ false → F.le b a ≡ true)
    → ((a b c : F.Number) → F.le a b ≡ true → F.le b c ≡ true → F.le a c ≡ true)
    → fetch_files net (servinfo, fs) ≡ goes (servinfo', fs')
    → fs' servers_path ≡ some content
    → All (IsNamed F) (servers_of F (client_of F fs').latitude (client_of F fs').longitude content)
    → 5 ≤ length (servers_of F (client_of F fs').latitude (client_of F fs').longitude content)
    → (s : ServerData F) × (find_server F net probe v servinfo fs ≡ goes s)
      × IsChosen F 5
          (servers_of F (client_of F fs').latitude (client_of F fs').longitude content)
          (probed_servers F 5 probe v fs' (client_of F fs'))
          s
unfolding find_server
find_server-IsChosen_of_five F net probe v servinfo servinfo' fs fs' content total trans fetched e
      named five =
    (
      slot probed chosen.0,
      rw fetched (used ∙ rw (counted, chosen.1, answered chosen.0) refl),
      chosen.3,
    )
  where
    client : ClientData F
    client = client_of F fs'

    result : ℕ × List (ServerData F)
    result = get_nearest_server F fs' client.latitude client.longitude (replicate 5 (zero_server F))

    server_count : ℕ
    server_count = server_lines F client.latitude client.longitude content

    near : IsNearest F 5 server_count (servers_of F client.latitude client.longitude content) result
    near =
        get_nearest_server-IsNearest F fs' client.latitude client.longitude content 5 total trans e
          named

    counted : result.0 == 0 ≡ false
    counted =
        let few = servers_of_few F client.latitude client.longitude content in
        let c = near.code in ground arith

    answered : (k : ℕ) → eq_ℤ (pos k) (negsuc 0) ≡ false
    answered k = ne→==_false (k + 1) 0 (omega arith)

    probed : List (ServerData F)
    probed = (get_best_server F probe v result.1).1

    chosen :
        (k : ℕ) × ((get_best_server F probe v result.1).0 ≡ pos k)
        × (k < 5)
        × IsChosen F 5
            (servers_of F client.latitude client.longitude content)
            probed
            (slot probed k)
    chosen =
        IsChosen-of F 5 server_count (servers_of F client.latitude client.longitude content) result
          probe v (omega arith) five near

    used : use_files F probe v fs' ≡ (
        if result.0 == 0
        then exits (pos 0)
        else (let r = get_best_server F probe v result.1 in
            if eq_ℤ r.0 (negsuc 0)
            then exits (pos 0)
            else goes (get_or r.1 (magnitude r.0) (zero_server F))))
    used = unfold use_files in refl
