-- ===== src/Tests/Network.antt =====
-- The theorems on requests, transfers and directories at concrete inputs.
use gemtek_sw_training.Prelude.{
  if◌then◌else◌, ℕ, ◌≤◌, ◌≡◌, ◌↔◌, true, false, pos, negsuc, none, some, List, [], ◌∷◌, ◌++◌, arith,
  Bytes, codes,
}
use gemtek_sw_training.CString.Search.{Lacks}
use gemtek_sw_training.CString.Format.{decimal}
use gemtek_sw_training.FileHandle.{Files}
use gemtek_sw_training.Speedtest.Server.{SockAddr}
use gemtek_sw_training.Http.{
  build_http_get, crlf, blank_line, Round, failed, closed, chunk, get_http_file,
}
use gemtek_sw_training.Http.Body.{timed_out_lost}
use gemtek_sw_training.Http.Requests.{read_head, get_marker, post_marker, read_head-build_http_get}
use gemtek_sw_training.Transfer.{Worker, upload_request}
use gemtek_sw_training.Transfer.Totals.{read_head-upload_request}
use gemtek_sw_training.Directory.{
  Entries, no_more, file, folder, file_exist_in_dir, search_file_in_directory,
}
use gemtek_sw_training.CString.{str_eq}
use gemtek_sw_training.Flow.{Exchange}
use gemtek_sw_training.Directory.Searching.{IsListed, search_file_in_directory_iff}

abbrev no_files : Files
no_files name = none

abbrev head : Bytes
head = codes "HTTP/1.0 200 OK"

abbrev whole : Bytes
whole = head ++ (blank_line ++ codes "te")

-- A chunk, a round that times out, and a second chunk.
abbrev rounds : List Round
rounds =
    record { selected = true; received = chunk whole }
    ∷ record { selected = false; received = failed }
    ∷ record { selected = true; received = chunk (codes "st") }
    ∷ record { selected = true; received = closed }
    ∷ []

-- The same response, whose blank line arrives in two parts.
abbrev halves : List Bytes
halves = (head ++ crlf) ∷ (crlf ++ codes "test") ∷ []

timed_out_lost_example :
    get_http_file
      (pos 3)
      (pos 80)
      ([] ++ record { selected = false; received = chunk (codes "x") } ∷ rounds)
      no_files
      (codes "a.b")
      (codes "f")
      (codes "f")
    ≡ get_http_file (pos 3) (pos 80) ([] ++ rounds) no_files (codes "a.b") (codes "f") (codes "f")
timed_out_lost_example =
    timed_out_lost (pos 3) (pos 80) [] rounds (chunk (codes "x")) no_files (codes "a.b") (codes "f")
      (codes "f")

abbrev address : ℕ → SockAddr
address n = record { sin_family = 2; sin_port = 80; sin_addr = n }

f-Lacks : Lacks b' ' (codes "f")
f-Lacks = (omega arith, tt)

ab-Lacks : (c : ℕ) → c ≤ 32 → Lacks c (codes "ab")
ab-Lacks c h = (omega arith, (omega arith, tt))

read_head-build_http_get_example :
    read_head (codes "GET /") get_marker (build_http_get (codes "ab") (codes "f"))
    ≡ some (record {
      path = codes "f";
      host = codes "ab";
      rest = 10 ∷ (codes "User-Agent: status" ++ (crlf ++ (codes "Accept: */*" ++ (crlf ++ crlf))));
    })
read_head-build_http_get_example =
    read_head-build_http_get (codes "ab") (codes "f") f-Lacks (ab-Lacks 13 (omega arith))

abbrev worker : ℕ → Worker
worker running = record {
  thread_index = 0;
  running = running;
  domain_name = codes "ab";
  request_url = codes "f";
  servinfo = address 0;
}

read_head-upload_request_example :
    read_head (codes "POST /") post_marker (upload_request (worker 0))
    ≡ some (record {
      path = codes "ab";
      host = codes "f";
      rest = 10 ∷ (codes "Content-Length: " ++ (decimal 83886080 ++ (crlf ++ crlf)));
    })
read_head-upload_request_example =
    read_head-upload_request (worker 0) (ab-Lacks b' ' (omega arith)) (omega arith, tt)

abbrev tree : Entries
tree = folder (codes "sub") true (file (codes "f") no_more) (file (codes "f") no_more)

search_file_in_directory_iff_example :
    ((search_file_in_directory (codes "d") (codes "f") (some tree) []).0 ≡ file_exist_in_dir) ↔ (
      IsListed (codes "f") tree
      × (search_file_in_directory (codes "d") (codes "f") (some tree) []
          ≡ (file_exist_in_dir, codes "d" ++ b'/' ∷ codes "f")))
search_file_in_directory_iff_example = search_file_in_directory_iff (codes "d") (codes "f") tree []

-- The file that is written.
abbrev one_file : Files
one_file name = if str_eq name (codes "f") then some (codes "old") else none

abbrev refused : Exchange
refused = record {
  sockfd = pos 5;
  status = negsuc 0;
  sent = negsuc 0;
  ssl_status = negsuc 0;
  ssl_sent = negsuc 0;
  rounds = [];
}
