-- ===== src/Flow/Program.antt =====
-- Mini-Project/Application/main.c without HTTPS, from the first file to the end of the upload.
use gemtek_sw_training.Prelude.{length, All, ℕ, ◌*◌, ◌≤◌, ◌<◌, ◌≡◌, false, List, [], Bytes}
use mathlib.Core.Logic.Or
use mathlib.Core.List.Perm
use gemtek_sw_training.FileHandle.{Files}
use gemtek_sw_training.Speedtest.Double.{Double}
use gemtek_sw_training.Speedtest.Server.{SockAddr}
use gemtek_sw_training.Speedtest.Nearest.{Candidate}
use gemtek_sw_training.Speedtest.Best.{Probe, Locals, latency_url, scan_domain}
use gemtek_sw_training.Http.{build_http_get, build_http_post}
use gemtek_sw_training.Transfer.{
  scan_request_url, download_request_url, ul_buffer_size, ul_buffer_times,
}
use gemtek_sw_training.Transfer.Urls.{server_url, IsDirectory, IsUpload, IsHost}
use gemtek_sw_training.Pool.{Pool, Turn}
use gemtek_sw_training.Pool.Jobs.{download_job, upload_job}
use gemtek_sw_training.Flow.{Outcome, goes, after, Network, find_server}
use gemtek_sw_training.Flow.Speed.{speed_test}

-- `main`, with the turns of the threads of both tests.
unfoldable pub main :
    (F : Double)
    → Network
    → (ℕ → Bytes → Bytes → Probe)
    → Locals
    → SockAddr
    → Files
    → List Turn
    → List Turn
    → Outcome (Pool download_job × Pool upload_job)
unfolding find_server
main F net probe v servinfo fs dl_turns ul_turns =
    after (find_server F false net probe v servinfo fs) (λ s. goes (speed_test s dl_turns ul_turns))

-- A URL that the service writes: a host, directories, and a file `upload.` with an ending.
pub record IsServerUrl (url : Bytes) : Type 0 where
  pub host : Bytes
  pub dirs : List Bytes
  pub file : Bytes
  pub parts : url ≡ server_url host dirs file
  pub host_ok : IsHost host
  pub dirs_ok : All IsDirectory dirs
  pub file_ok : IsUpload file
  pub short : length url ≤ 123

-- The requests of both tests for a server with this URL and this domain name: the name is the host of
-- the URL, and both requests fit into their arrays.
abbrev pub Fits : Bytes → Bytes → Type 0
Fits url domain =
    (domain ≡ scan_domain url [])
    × (length (build_http_get domain (download_request_url url)) < 256)
    × (length (build_http_post (scan_request_url url) domain (ul_buffer_size * ul_buffer_times))
        < 512)

module _ (F : Double) where
  abbrev pub IsListedServer : Candidate F → Type 0
  IsListedServer c = IsServerUrl c.url

  abbrev FitsListed : Candidate F → Type 0
  FitsListed c = (old : Bytes) → Fits c.url (scan_domain (latency_url c.url) old)
