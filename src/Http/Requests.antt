-- ===== src/Http/Requests.antt =====
-- What a server reads in the requests.
use gemtek_sw_training.Prelude.{
  ◌==◌, if◌then◌else◌, ==_refl, ne→==_false, ℕ, ◌≡◌, refl, Option, none, some, [], ◌∷◌, ◌++◌, Bytes,
  codes,
}
use gemtek_sw_training.CString.Search.{Lacks}
use gemtek_sw_training.CString.Format.{print_int, decimal, scan_literal}
use gemtek_sw_training.Http.{crlf, build_http_get, build_http_post}

-- The text before the first `c`, and what is behind it.
unfoldable pub until : ℕ → Bytes → Bytes × Bytes
until c [] = ([], [])
until c (x ∷ s) = let rest = until c s in if x == c then ([], s) else (x ∷ rest.0, rest.1)

until-append : (c : ℕ) (s t : Bytes) → Lacks c s → until c (s ++ c ∷ t) ≡ (s, t)
unfolding until
until-append c [] t h = rw (==_refl c) refl
until-append c (x ∷ s) t (n, h) = rw (ne→==_false x c n, until-append c s t h) refl

-- What a server reads in the head of a request: the path behind the slash, and the host.
pub record Head : Type 0 where
  pub path : Bytes
  pub host : Bytes
  pub rest : Bytes

abbrev behind_target : Bytes → Bytes → Option Bytes → Option Head
behind_target path marker none = none
behind_target path marker (some s) =
    some (record { path = path; host = (until 13 s).0; rest = (until 13 s).1 })

-- the method with the slash, the path up to a space, the marker, the host up to the end of its line
unfoldable pub read_head : Bytes → Bytes → Bytes → Option Head
unfolding scan_literal until
read_head method marker s = elim (scan_literal method s) [
  | none ↦ none
  | some t ↦ behind_target (until b' ' t).0 marker (scan_literal marker (until b' ' t).1)
]

abbrev pub get_marker : Bytes
get_marker = codes "HTTP/1.0" ++ (crlf ++ codes "Host: ")

abbrev pub post_marker : Bytes
post_marker =
    codes "HTTP/1.0"
    ++ (crlf
        ++ (codes "Content-type: application/x-www-form-urlencoded" ++ (crlf ++ codes "Host: ")))

abbrev get_rest : Bytes
get_rest = 10 ∷ (codes "User-Agent: status" ++ (crlf ++ (codes "Accept: */*" ++ (crlf ++ crlf))))

-- A server that reads the request of `build_http_get` finds the URL as the path and the domain name as
-- the host, if the URL has no space and the domain name no carriage return.
pub read_head-build_http_get :
    (domain url : Bytes)
    → Lacks b' ' url
    → Lacks 13 domain
    → read_head (codes "GET /") get_marker (build_http_get domain url)
      ≡ some (record { path = url; host = domain; rest = get_rest })
unfolding read_head build_http_get scan_literal
read_head-build_http_get domain url u d =
    rw
      (
        until-append b' ' url
            (codes "HTTP/1.0" ++ (crlf ++ (codes "Host: " ++ (domain ++ 13 ∷ get_rest)))) u,
        scan_literal,
        until-append 13 domain get_rest d,
      )
      refl

-- The same for `build_http_post`; behind the host stands the content length.
pub read_head-build_http_post :
    (domain url : Bytes) (content_length : ℕ)
    → Lacks b' ' url
    → Lacks 13 domain
    → read_head (codes "POST /") post_marker (build_http_post domain url content_length)
      ≡ some (record {
        path = url;
        host = domain;
        rest = 10 ∷ (codes "Content-Length: " ++ (decimal content_length ++ (crlf ++ crlf)));
      })
unfolding read_head build_http_post scan_literal print_int
read_head-build_http_post domain url n u d =
    rw
      (
        until-append b' ' url
            (post_marker
              ++ (domain ++ 13 ∷ 10 ∷ (codes "Content-Length: " ++ (decimal n ++ (crlf ++ crlf)))))
            u,
        scan_literal,
        until-append 13 domain (10 ∷ (codes "Content-Length: " ++ (decimal n ++ (crlf ++ crlf)))) d,
      )
      refl
