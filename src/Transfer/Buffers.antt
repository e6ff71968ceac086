-- ===== src/Transfer/Buffers.antt =====
-- The sizes of what is made from the URL of a server, and of the arrays that it is written into.
use gemtek_sw_training.Prelude.{
  Bool-cases, length, All, length-append, ◌+◌, ◌*◌, ◌≤◌, ◌<◌, ◌≡◌, refl, inl, inr, true, pos, List,
  [], ◌∷◌, arith, Bytes, codes,
}
use gemtek_sw_training.CString.{find_text, starts_with}
use gemtek_sw_training.CString.Format.{print_int}
use gemtek_sw_training.Speedtest.Best.{
  found, latency_name, latency_url, scan_domain, latency_request_url,
}
use gemtek_sw_training.Http.{build_http_get, build_http_post}
use gemtek_sw_training.Transfer.{
  scan_request_url, download_filename, download_request_url, ul_buffer_size, ul_buffer_times,
}
use gemtek_sw_training.Transfer.Urls.{joined, server_url, IsDirectory, IsUpload, IsHost}
use gemtek_sw_training.Transfer.Requested.{IsRequested, server_url-IsRequested}

length-joined :
    (dirs : List Bytes) (f g : Bytes)
    → length (joined dirs f) + length g ≡ length (joined dirs g) + length f
length-joined [] f g = omega arith
length-joined (d ∷ dirs) f g = omega (
  arith,
  length-joined dirs f g,
  length-append d (b'/' ∷ joined dirs f),
  length-append d (b'/' ∷ joined dirs g),
)

length-server_url :
    (host : Bytes) (dirs : List Bytes) (file : Bytes)
    → length (server_url host dirs file) ≡ length host + length (joined dirs file) + 8
length-server_url host dirs file = omega (arith, length-append host (b'/' ∷ joined dirs file))

starts_with-le : (p s : Bytes) → starts_with p s ≡ true → length p ≤ length s
unfolding starts_with
starts_with-le [] s h = omega arith
starts_with-le (c ∷ p) [] h = cc
starts_with-le (c ∷ p) (x ∷ s) h = ground (arith, starts_with-le p s)

find_text-le : (p s : Bytes) → found (find_text p s) ≡ true → length p ≤ length s
unfolding find_text
find_text-le [] [] h = omega arith
find_text-le (c ∷ p) [] h = cc
find_text-le p (x ∷ s) h = elim (Bool-cases (starts_with p (x ∷ s))) [
  | inl e ↦ starts_with-le p (x ∷ s) e
  | inr e ↦ (let k = find_text-le p s (rw e at h) in omega arith)
]

length-build_http_get :
    (domain_name request_url : Bytes)
    → length (build_http_get domain_name request_url) ≡ length domain_name + length request_url + 59
unfolding build_http_get
length-build_http_get domain_name request_url = omega (arith, length-append {0})

length-print_int : length (print_int (pos (ul_buffer_size * ul_buffer_times))) ≡ 8
unfolding print_int
length-print_int = refl

length-build_http_post :
    (domain_name request_url : Bytes)
    → length (build_http_post domain_name request_url (ul_buffer_size * ul_buffer_times))
      ≡ length domain_name + length request_url + 102
unfolding build_http_post
length-build_http_post domain_name request_url = omega (arith, length-append {0}, length-print_int)

-- What is written fits into its array, the NUL behind it included.
pub record FitsBuffers (url old : Bytes) : Type 0 where
  pub latency_url_fits : length (latency_url url) < 128
  pub domain_name_fits : length (scan_domain (latency_url url) old) < 128
  pub latency_request_fits :
      length (latency_request_url (latency_url url) (scan_domain (latency_url url) old)) < 128
  pub latency_get_fits :
      length (
        build_http_get
          (scan_domain (latency_url url) old)
          (latency_request_url (latency_url url) (scan_domain (latency_url url) old)))
      < 256
  pub upload_url_fits : length (scan_request_url url) < 128
  pub download_url_fits : length (download_request_url url) < 128
  pub download_get_fits :
      length (build_http_get (scan_domain (latency_url url) old) (download_request_url url)) < 256
  pub upload_post_fits :
      length (
        build_http_post
          (scan_request_url url)
          (scan_domain (latency_url url) old)
          (ul_buffer_size * ul_buffer_times))
      < 512

-- The URL of a server of at most 123 bytes, a host, directories and a file `upload.` with an ending:
-- everything that the probe, the download and the upload make of it fits into its array, with the NUL:
-- the URL and the path of the latency file, the domain name, both paths of the test, and the three
-- requests. The URL of the latency file is longer than that of the server by 11 bytes less the
-- length of the file's name, so that one of 127 bytes, which fits into the table, need not fit here.
pub requests_fit :
    (host : Bytes) (dirs : List Bytes) (file old : Bytes)
    → IsHost host
    → All IsDirectory dirs
    → IsUpload file
    → length (server_url host dirs file) ≤ 123
    → FitsBuffers (server_url host dirs file) old
      × (length (latency_url (server_url host dirs file)) + length file
          ≡ length (server_url host dirs file) + 11)
requests_fit host dirs file old k h f short = (
  record {
    latency_url_fits = rw made.latency (omega (arith, sizes));
    domain_name_fits = rw made.domain (omega (arith, sizes));
    latency_request_fits = rw (made.domain, made.latency_request) (omega (arith, sizes));
    latency_get_fits =
        rw (made.domain, made.latency_request)
          (omega (arith, length-build_http_get host (b'/' ∷ joined dirs latency_name), sizes));
    upload_url_fits = rw made.upload (omega (arith, sizes));
    download_url_fits = rw made.download (omega (arith, sizes));
    download_get_fits =
        rw (made.domain, made.download)
          (omega (arith, length-build_http_get host (joined dirs download_filename), sizes));
    upload_post_fits =
        rw (made.domain, made.upload)
          (omega (arith, length-build_http_post (joined dirs file) host, sizes));
  },
  rw made.latency (omega (arith, sizes)),
)
  where
    made : IsRequested host dirs file (server_url host dirs file) old
    made = server_url-IsRequested host dirs file old k h f

    sizes :
        (7 ≤ length file)
        × (length (server_url host dirs file) ≡ length host + length (joined dirs file) + 8)
        × (length (server_url host dirs latency_name)
            ≡ length host + length (joined dirs latency_name) + 8)
        × (length (joined dirs file) + 11 ≡ length (joined dirs latency_name) + length file)
        × (length (joined dirs file) + 19 ≡ length (joined dirs download_filename) + length file)
    sizes = (
      find_text-le (codes "upload.") file f.upload,
      length-server_url host dirs file,
      length-server_url host dirs latency_name,
      length-joined dirs file latency_name,
      length-joined dirs file download_filename,
    )
