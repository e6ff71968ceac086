-- ===== src/Tests/Program.antt =====
-- The theorems on the speed test as a whole at concrete inputs.
use gemtek_sw_training.Prelude.{
  if◌then◌else◌, length, ◌≡◌, refl, inr, true, false, pos, negsuc, none, some, [], ◌∷◌, ◌++◌, Bytes,
  codes,
}
use gemtek_sw_training.CString.{str_eq, lines, line_of, fgets, starts_with, c_str}
use gemtek_sw_training.CString.{has_char}
use gemtek_sw_training.CString.Search.{has_char-false}
use gemtek_sw_training.Speedtest.Nearest.{read_server, candidate}
use gemtek_sw_training.Speedtest.Nearest.Ranking.{candidates}
use gemtek_sw_training.Speedtest.Nearest.Tags.{skip_unnamed}
use gemtek_sw_training.Speedtest.Nearest.Result.{servers_of}
use gemtek_sw_training.FileHandle.{Files}
use gemtek_sw_training.Http.{
  Round, Received, failed, closed, chunk, tmp_path, get_ipv4_addr, init_connection,
}
use gemtek_sw_training.Http as Http
use gemtek_sw_training.Speedtest.Server.{SockAddr, ClientData, quoted_fields}
use gemtek_sw_training.Speedtest.Client.{
  zero_client, read_client, find_client, get_ip_address_position,
}
use gemtek_sw_training.Speedtest.Client.Position.{client_line, get_ip_address_position-client_line}
use gemtek_sw_training.Flow.{
  goes, Exchange, Network, config_request_url, fetch, fetch_files, use_files, find_server,
}
use gemtek_sw_training.Flow.Offline.{unresolved, find_server-IsOffline}
use gemtek_sw_training.Ref.{get_http_file}
use gemtek_sw_training.Ref.Same.{recoded, get_http_file_same}
use gemtek_sw_training.Tests.Listing.{field}
use gemtek_sw_training.Tests.Servers.{toy, locals, first_fails}

abbrev sample_client : Bytes
sample_client =
    client_line (codes "1.2.3.4") (codes "24.7") (codes "120.9") (codes "HiNet")
      (codes " rating=\"0\"/>\n")

abbrev one_client : Files
one_client name = some (codes "<settings>\n" ++ sample_client)

sample_lines :
    lines 510 (codes "<settings>\n" ++ sample_client)
    ≡ (codes "<settings>\n" ∷ []) ++ sample_client ∷ []
unfolding lines fgets line_of
sample_lines = refl

sample_other : starts_with (codes "<client") (c_str (codes "<settings>\n")) ≡ false
unfolding starts_with c_str
sample_other = refl

get_ip_address_position-client_line_example :
    get_ip_address_position toy one_client (codes "x") (zero_client toy)
    ≡ some (
      1,
      record { ip_addr = codes "1.2.3.4"; latitude = b'2'; longitude = b'1'; isp = codes "HiNet" },
    )
unfolding has_char
get_ip_address_position-client_line_example =
    get_ip_address_position-client_line toy one_client (codes "x")
      (codes "<settings>\n" ++ sample_client) (zero_client toy) (codes "<settings>\n" ∷ [])
      (codes "1.2.3.4") (codes "24.7") (codes "120.9") (codes "HiNet") (codes " rating=\"0\"/>\n")
      [] refl sample_lines (sample_other, tt) (field (codes "1.2.3.4") refl refl refl)
      (field (codes "24.7") refl refl refl) (field (codes "120.9") refl refl refl)
      (field (codes "HiNet") refl refl refl) ((has_char-false 0 (codes " rating=\"0\"/>\n")).0 refl)

-- No name resolves.
abbrev pub offline : Network
offline = record {
  resolve = λ name. none;
  exchange = λ a domain url. record {
    sockfd = negsuc 0;
    status = negsuc 0;
    sent = negsuc 0;
    ssl_status = negsuc 0;
    ssl_sent = negsuc 0;
    rounds = [];
  };
}

abbrev pub nowhere : SockAddr
nowhere = record { sin_family = 0; sin_port = 0; sin_addr = 0 }

find_server-IsOffline_example :
    find_server toy true offline first_fails locals nowhere one_client
    ≡ use_files toy first_fails locals one_client
find_server-IsOffline_example =
    find_server-IsOffline toy true offline first_fails locals nowhere one_client
      (unresolved true (λ name. refl))

abbrev reached : Exchange
reached = record {
  sockfd = pos 3;
  status = pos 0;
  sent = pos 61;
  ssl_status = pos 1;
  ssl_sent = pos 61;
  rounds = record { selected = true; received = closed } ∷ [];
}

get_http_file_same_example :
    get_http_file reached one_client (codes "a") (codes "f") (codes "g")
    ≡ recoded (
        Http.get_http_file
          (init_connection (pos 3) (pos 0))
          (pos 61)
          reached.rounds
          one_client
          (codes "a")
          (codes "f")
          (codes "g"))
get_http_file_same_example =
    get_http_file_same reached one_client (codes "a") (codes "f") (codes "g") (inr (2, refl))
      (inr refl)

-- The files of an earlier run: the client, and ten servers.
abbrev line_for : Bytes → Bytes
line_for lat =
    codes "<server url=\"http://a.b/c/upload.php\" lat=\""
    ++ (lat ++ codes "\" lon=\"1\" name=\"N\" country=\"C\"/>\n")

abbrev five_lines : Bytes
five_lines =
    line_for (codes "5")
    ++ (line_for (codes "3")
        ++ (line_for (codes "8") ++ (line_for (codes "1") ++ line_for (codes "9"))))

abbrev pub ten_servers : Bytes
ten_servers = five_lines ++ five_lines

unfoldable pub earlier_run : Files
earlier_run name =
    if str_eq name (tmp_path config_request_url) then some sample_client else some ten_servers

abbrev pub here : ClientData toy
here = record { ip_addr = codes "1.2.3.4"; latitude = b'2'; longitude = b'1'; isp = codes "HiNet" }

pub here-found :
    get_ip_address_position toy earlier_run config_request_url (zero_client toy) ≡ some (1, here)
unfolding earlier_run str_eq get_ip_address_position find_client read_client lines fgets line_of
    starts_with c_str quoted_fields
here-found = refl

pub not_fetched : fetch_files false offline (nowhere, earlier_run) ≡ goes (nowhere, earlier_run)
unfolding fetch_files fetch get_ipv4_addr
not_fetched = refl

pub ten-counted : length (servers_of toy here.latitude here.longitude ten_servers) ≡ 10
unfolding candidates lines fgets line_of starts_with c_str quoted_fields read_server candidate
    skip_unnamed
ten-counted = refl
