-- ===== src/Transfer/Requested.antt =====
-- What the programs make of the URL of a server.
use gemtek_sw_training.Prelude.{
  length, All, ℕ, ◌<◌, ◌≡◌, refl, ap, ◌∙◌, some, List, [], ◌∷◌, ◌++◌, append_assoc, arith, Bytes,
  codes,
}
use gemtek_sw_training.CString.{find_text, starts_with, tokens}
use gemtek_sw_training.CString.Format.{skip_space}
use gemtek_sw_training.CString.Tokens.{
  tokens_delimiter, tokens-append, find_text-append, find_text_early,
}
use gemtek_sw_training.Speedtest.Best.{
  latency_name, latency_loop, latency_url, before_slash, behind, scan_domain, latency_request_url,
}
use gemtek_sw_training.Transfer.{
  word, after_slash, scan_request_url, download_filename, join_pieces, download_request_url,
}
use gemtek_sw_training.Transfer.Urls.{
  joined, server_url, IsDirectory, IsUpload, IsHost, tokens-joined, latency_piece_other,
  latency_loop_dirs, join_pieces_dirs, before_slash-append, after_slash-append, skip_bytes-append,
  word-NoSpace, skip_space-NoSpace, joined-NoSpace, NoSpace,
}

latency_url-server_url :
    (host : Bytes) (dirs : List Bytes) (file : Bytes)
    → IsHost host
    → All IsDirectory dirs
    → IsUpload file
    → latency_url (server_url host dirs file) ≡ server_url host dirs latency_name
unfolding latency_url find_text starts_with latency_loop
latency_url-server_url host dirs file k h f =
    ap (λ ts. latency_loop ts []) cut
    ∙ ap (λ p. latency_loop (dirs ++ file ∷ []) (codes "http://" ++ p))
        (latency_piece_other host k.not_upload k.not_http)
    ∙ latency_loop_dirs dirs file (codes "http://" ++ (host ++ b'/' ∷ [])) h f
    ∙ ap (λ p. codes "http://" ++ p) (append_assoc host (b'/' ∷ []) (joined dirs latency_name))
  where
    cut : tokens b'/' (server_url host dirs file) ≡ codes "http:" ∷ host ∷ (dirs ++ file ∷ [])
    cut =
        tokens-append b'/' (codes "http:") (b'/' ∷ (host ++ b'/' ∷ joined dirs file))
          (record { some_byte = omega arith; no_delimiter = omega arith })
        ∙ ap (λ ts. codes "http:" ∷ ts)
            (tokens_delimiter b'/' (host ++ b'/' ∷ joined dirs file)
              ∙ tokens-append b'/' host (joined dirs file) k.token
              ∙ ap (λ ts. host ∷ ts) (tokens-joined dirs file h f.token))

first_byte : (s : Bytes) → 0 < length s → (x : ℕ) × (r : Bytes) × (s ≡ x ∷ r)
first_byte [] h = absurd (omega arith)
first_byte (x ∷ r) h = (x, r, refl)

pub scan_domain-server_url :
    (host : Bytes) (dirs : List Bytes) (file old : Bytes)
    → IsHost host
    → scan_domain (server_url host dirs file) old ≡ host
unfolding scan_domain behind
scan_domain-server_url host dirs file old k =
    let (x, r, e) = first_byte host k.token.some_byte in
    rw (before_slash-append host (joined dirs file) k.token.no_delimiter, e) refl

scan_request_url_lem :
    (s : Bytes) (x : ℕ) (r : Bytes)
    → before_slash s ≡ x ∷ r
    → scan_request_url (codes "http://" ++ s) ≡ word (skip_space (after_slash s))
unfolding scan_request_url behind
scan_request_url_lem s x r e = rw (e, scan_request_url) refl

scan_request_url-server_url :
    (host : Bytes) (dirs : List Bytes) (file : Bytes)
    → IsHost host
    → All IsDirectory dirs
    → IsUpload file
    → scan_request_url (server_url host dirs file) ≡ joined dirs file
scan_request_url-server_url host dirs file k h f =
    let (x, r, e) = first_byte host k.token.some_byte in
    scan_request_url_lem (host ++ b'/' ∷ joined dirs file) x r
      (before_slash-append host (joined dirs file) k.token.no_delimiter ∙ e)
    ∙ ap (λ p. word (skip_space p))
        (after_slash-append host (joined dirs file) k.token.no_delimiter)
    ∙ ap word (skip_space-NoSpace (joined dirs file) clean)
    ∙ word-NoSpace (joined dirs file) clean
  where
    clean : NoSpace (joined dirs file)
    clean = joined-NoSpace dirs file h f.no_space

download_request_url-server_url :
    (host : Bytes) (dirs : List Bytes) (file : Bytes)
    → IsHost host
    → All IsDirectory dirs
    → IsUpload file
    → download_request_url (server_url host dirs file) ≡ joined dirs download_filename
unfolding download_request_url
download_request_url-server_url host dirs file k h f =
    ap (λ p. join_pieces (tokens b'/' p) []) (scan_request_url-server_url host dirs file k h f)
    ∙ ap (λ ts. join_pieces ts []) (tokens-joined dirs file h f.token)
    ∙ join_pieces_dirs dirs file [] h f

latency_request_url-server_url :
    (host : Bytes) (dirs : List Bytes) (file : Bytes)
    → IsHost host
    → latency_request_url (server_url host dirs file) host ≡ b'/' ∷ joined dirs file
unfolding latency_request_url
latency_request_url-server_url host dirs file k =
    rw (at_host, latency_request_url) (skip_bytes-append host (b'/' ∷ joined dirs file))
  where
    at_host : find_text host (server_url host dirs file) ≡ some (host ++ b'/' ∷ joined dirs file)
    at_host =
        find_text_early b'.' b'/' host (codes "http:") (b'/' ∷ (host ++ b'/' ∷ joined dirs file))
          k.period k.token.no_delimiter (omega arith)
        ∙ find_text_early b'.' b'/' host [] (host ++ b'/' ∷ joined dirs file) k.period
            k.token.no_delimiter tt
        ∙ find_text-append host (b'/' ∷ joined dirs file)

-- What the programs make of the URL of a server.
pub record IsRequested (host : Bytes) (dirs : List Bytes) (file : Bytes) (url old : Bytes)
    : Type 0 where
  pub latency : latency_url url ≡ server_url host dirs latency_name
  pub domain : scan_domain (latency_url url) old ≡ host
  pub latency_request : latency_request_url (latency_url url) host ≡ b'/' ∷ joined dirs latency_name
  pub upload : scan_request_url url ≡ joined dirs file
  pub download : download_request_url url ≡ joined dirs download_filename

-- From the URL of a server, of a host, directories and a file `upload.` with an ending: the URL of the
-- latency file has `latency.txt` in place of that file, the domain name that is read from it is the
-- host, and what is requested from the host is the path behind it; the upload goes to the path of
-- the URL, and the download asks for the same path with the picture in place of the file. The host
-- has a period, the parts have no slash and the path no white space, and only the file holds `upload.`.
pub server_url-IsRequested :
    (host : Bytes) (dirs : List Bytes) (file old : Bytes)
    → IsHost host
    → All IsDirectory dirs
    → IsUpload file
    → IsRequested host dirs file (server_url host dirs file) old
server_url-IsRequested host dirs file old k h f = record {
  latency = replaced;
  domain = rw replaced (scan_domain-server_url host dirs latency_name old k);
  latency_request = rw replaced (latency_request_url-server_url host dirs latency_name k);
  upload = scan_request_url-server_url host dirs file k h f;
  download = download_request_url-server_url host dirs file k h f;
}
  where
    replaced : latency_url (server_url host dirs file) ≡ server_url host dirs latency_name
    replaced = latency_url-server_url host dirs file k h f
