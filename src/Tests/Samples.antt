-- ===== src/Tests/Samples.antt =====
-- The definitions at concrete inputs.
use gemtek_sw_training.Prelude.{
  ◌≡◌, refl, true, false, pos, negsuc, ◌+ℤ◌, ◌-ℤ◌, ◌*ℤ◌, some, [], ◌∷◌, codes,
}
use gemtek_sw_training.CString.{lines, tokens, starts_with}
use gemtek_sw_training.CString.Format.{print_int, scan_int, skip_space}
use gemtek_sw_training.Common.{int_to_str}
use gemtek_sw_training.FileHandle.{create_new_file_name, get_last_line, is_valid_file_name}
use gemtek_sw_training.Http.{host_token}
use gemtek_sw_training.Speedtest.Best.{elapsed, latency_request_url, latency_url}
use gemtek_sw_training.Speedtest.Server.{quoted_fields}
use gemtek_sw_training.Transfer.{download_request_url}

strtok_sample : tokens b'/' (codes "http://a.b/c") ≡ codes "http:" ∷ codes "a.b" ∷ codes "c" ∷ []
unfolding tokens
strtok_sample = refl

lines_sample : lines 4 (codes "abcdef\ngh\n") ≡ codes "abcd" ∷ codes "ef\n" ∷ codes "gh\n" ∷ []
unfolding lines
lines_sample = refl

print_int_sample : (print_int (pos 1207) ≡ codes "1207") × (print_int (negsuc 4) ≡ codes "-5")
unfolding print_int
print_int_sample = (refl, refl)

scan_int_sample : scan_int (codes "  -12: 7") ≡ some (negsuc 11, codes ": 7")
unfolding scan_int
scan_int_sample = refl

int_to_str_sample : int_to_str (pos 407) 5 ≡ (codes "00407", 5)
unfolding int_to_str
int_to_str_sample = refl

int_to_str_zero : int_to_str (pos 0) 0 ≡ (codes "0", 1)
unfolding int_to_str
int_to_str_zero = refl

-- A negative number prints the characters below the digits.
int_to_str_negative : int_to_str (negsuc 11) 0 ≡ (codes "/.", 2)
unfolding int_to_str
int_to_str_negative = refl

get_last_line_sample :
    get_last_line (λ _. some (codes "Process 7: 1\nProcess 8: 2\n")) [] []
    ≡ (some tt, codes "Process 8: 2\n")
unfolding get_last_line
get_last_line_sample = refl

create_new_file_name_sample :
    create_new_file_name (codes "a.b.txt") (codes "out") (codes "/tmp") ≡ codes "/tmp/out.txt"
unfolding create_new_file_name
create_new_file_name_sample = refl

is_valid_file_name_sample :
    (is_valid_file_name 255 (codes "a.txt") ≡ true) × (is_valid_file_name 255 (codes "a?b") ≡ false)
unfolding is_valid_file_name
is_valid_file_name_sample = (refl, refl)

host_token_sample :
    (host_token (codes "a.b:8080") ≡ codes "a.b") × (host_token (codes "a.b") ≡ codes "a.b")
unfolding host_token starts_with
host_token_sample = (refl, refl)

latency_url_sample :
    latency_url (codes "http://a.b/speedtest/upload.php") ≡ codes "http://a.b/speedtest/latency.txt"
unfolding latency_url starts_with
latency_url_sample = refl

latency_request_url_sample :
    latency_request_url (codes "http://a.b/speedtest/latency.txt") (codes "a.b")
    ≡ codes "/speedtest/latency.txt"
unfolding latency_request_url starts_with
latency_request_url_sample = refl

elapsed_sample :
    elapsed
      (record { tv_sec = pos 10; tv_usec = pos 900000 })
      (record { tv_sec = pos 12; tv_usec = pos 100 })
    ≡ pos 1100100
unfolding elapsed ◌+ℤ◌ ◌-ℤ◌ ◌*ℤ◌
elapsed_sample = refl

quoted_fields_sample :
    quoted_fields 3 (codes "<server url=\"http://a/b\" lat=\"70.0\" lon=\"29.7\" name=\"V\"/>")
    ≡ codes "http://a/b" ∷ codes "70.0" ∷ codes "29.7" ∷ []
unfolding quoted_fields
quoted_fields_sample = refl

download_request_url_sample :
    download_request_url (codes "http://a.b/speedtest/upload.php")
    ≡ codes "speedtest/random3500x3500.jpg"
unfolding download_request_url starts_with skip_space
download_request_url_sample = refl
