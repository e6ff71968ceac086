-- ===== src/Tests/Whole.antt =====
-- The whole program, and the requests that it makes, at a concrete input.
use gemtek_sw_training.Prelude.{
  ltb, ltb→lt, length, All, ◌+◌, ◌≡◌, refl, true, false, [], ◌∷◌, arith, Bytes, codes,
}
use gemtek_sw_training.CString.{has_char, find_text, starts_with}
use gemtek_sw_training.CString.Search.{has_char-false}
use gemtek_sw_training.CString.Tokens.{IsToken}
use gemtek_sw_training.Speedtest.Best.{latency_url}
use gemtek_sw_training.Transfer.Urls.{IsDirectory, IsUpload, IsHost}
use gemtek_sw_training.Transfer.Requested.{IsRequested, server_url-IsRequested}
use gemtek_sw_training.Transfer.Buffers.{FitsBuffers, requests_fit}

part : (s : Bytes) → has_char b'/' s ≡ false → ltb 0 (length s) ≡ true → IsToken b'/' s
part s e n = record {
  some_byte = ltb→lt 0 (length s) n;
  no_delimiter = (has_char-false b'/' s).0 e;
}

name-IsHost : IsHost (codes "a.b")
unfolding has_char find_text starts_with
name-IsHost = record {
  token = part (codes "a.b") refl refl;
  period = refl;
  not_upload = refl;
  not_http = refl;
}

parts-IsDirectory : All IsDirectory (codes "c" ∷ [])
unfolding has_char find_text starts_with
parts-IsDirectory = (
  record {
    token = part (codes "c") refl refl;
    no_space = (refl, tt);
    not_upload = refl;
    not_http = refl;
  },
  tt,
)

php-IsUpload : IsUpload (codes "upload.php")
unfolding has_char find_text starts_with
php-IsUpload = record {
  token = part (codes "upload.php") refl refl;
  no_space = (refl, (refl, (refl, (refl, (refl, (refl, (refl, (refl, (refl, (refl, tt))))))))));
  upload = refl;
  not_http = refl;
}

server_url-IsRequested_example :
    IsRequested
      (codes "a.b")
      (codes "c" ∷ [])
      (codes "upload.php")
      (codes "http://a.b/c/upload.php")
      []
server_url-IsRequested_example =
    server_url-IsRequested (codes "a.b") (codes "c" ∷ []) (codes "upload.php") [] name-IsHost
      parts-IsDirectory php-IsUpload

requests_fit_example :
    FitsBuffers (codes "http://a.b/c/upload.php") []
    × (length (latency_url (codes "http://a.b/c/upload.php")) + 10 ≡ 23 + 11)
requests_fit_example =
    requests_fit (codes "a.b") (codes "c" ∷ []) (codes "upload.php") [] name-IsHost
      parts-IsDirectory php-IsUpload (omega arith)
