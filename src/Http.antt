-- ===== src/Http.antt =====
-- Mini-Project/Application/src/http.c: names, requests, and the loop that receives a file. What the
-- system calls return is an argument.
pub mod Body
pub mod Names
pub mod Requests
pub mod Sockets
pub mod Tls
use gemtek_sw_training.Prelude.{
  ◌==◌, if◌then◌else◌, length, take, drop, ℕ, ◌-◌, Bool, true, false, ℤ, pos, negsuc, lt_ℤ, eq_ℤ,
  Option, none, some, List, [], ◌∷◌, ◌++◌, Bytes, codes,
}
use gemtek_sw_training.CString.{find_text, starts_with, c_str, str_eq}
use gemtek_sw_training.CString.Format.{print_int}
use gemtek_sw_training.FileHandle.{Files}
use gemtek_sw_training.Speedtest.Server.{SockAddr}

abbrev pub port_suffix : Bytes
port_suffix = codes ":8080"

abbrev pub has_port : Option Bytes → Bool
has_port none = false
has_port (some t) = true

-- `token`: five bytes fewer where the name holds `:8080` anywhere
unfoldable pub host_token : Bytes → Bytes
unfolding find_text
host_token domain_name =
    if has_port (find_text port_suffix domain_name)
    then take (length domain_name - 5) domain_name
    else domain_name

-- A result of `getaddrinfo`: the family and the address.
pub record AddrInfo : Type 0 where
  pub ai_family : ℕ
  pub ai_addr : SockAddr

-- AF_INET
abbrev pub af_inet : ℕ
af_inet = 2

-- Each IPv4 address overwrites the one before it.
unfoldable pub copy_addrs : List AddrInfo → SockAddr → SockAddr
copy_addrs [] servinfo = servinfo
copy_addrs (p ∷ ps) servinfo =
    copy_addrs ps (if p.ai_family == af_inet then p.ai_addr else servinfo)

-- The returned code and `servinfo`; the argument stands for `getaddrinfo`, `none` where it fails.
unfoldable pub get_ipv4_addr : (Bytes → Option (List AddrInfo)) → Bytes → SockAddr → ℕ × SockAddr
unfolding host_token copy_addrs
get_ipv4_addr resolve domain_name servinfo = elim (resolve (host_token domain_name)) [
  | none ↦ (0, servinfo)
  | some ps ↦ (1, copy_addrs ps servinfo)
]

-- From what `socket` and `connect` return.
unfoldable pub init_connection : ℤ → ℤ → ℤ
init_connection sockfd status =
    if lt_ℤ (pos 0) sockfd then (if eq_ℤ status (pos 0) then sockfd else negsuc 0) else negsuc 0

abbrev pub crlf : Bytes
crlf = 13 ∷ 10 ∷ []

-- What `sprintf` writes into `sbuf`.
unfoldable pub build_http_get : Bytes → Bytes → Bytes
build_http_get domain_name request_url =
    codes "GET /"
    ++ (request_url
        ++ (codes " HTTP/1.0"
            ++ (crlf
                ++ (codes "Host: "
                    ++ (domain_name
                        ++ (crlf
                            ++ (codes "User-Agent: status"
                                ++ (crlf ++ (codes "Accept: */*" ++ (crlf ++ crlf))))))))))

unfoldable pub build_http_post : Bytes → Bytes → ℕ → Bytes
unfolding print_int
build_http_post domain_name request_url content_length =
    codes "POST /"
    ++ (request_url
        ++ (codes " HTTP/1.0"
            ++ (crlf
                ++ (codes "Content-type: application/x-www-form-urlencoded"
                    ++ (crlf
                        ++ (codes "Host: "
                            ++ (domain_name
                                ++ (crlf
                                    ++ (codes "Content-Length: "
                                        ++ (print_int (pos content_length)
                                            ++ (crlf ++ crlf)))))))))))

-- From what `send` returns.
unfoldable pub make_request : ℤ → Bytes → ℤ
make_request sent sbuf = if eq_ℤ sent (pos (length sbuf)) then pos 0 else negsuc 0

-- What `recv` gives: an error, the end, or at most 8192 bytes.
pub data Received : Type 0 where
  failed : Received
  closed : Received
  chunk : Bytes → Received

-- One round: whether `select` returns a positive number with the descriptor set, and what `recv`
-- gives, which is called in either case.
pub record Round : Type 0 where
  pub selected : Bool
  pub received : Received

abbrev pub blank_line : Bytes
blank_line = crlf ++ crlf

-- What `fwrite` appends: the text behind the first blank line, up to a NUL, or all that was received.
unfoldable pub stored_part : Bytes → Bytes
unfolding find_text c_str
stored_part rbuf = elim (find_text blank_line (c_str rbuf)) [ none ↦ rbuf | some ptr ↦ drop 4 ptr ]

-- The `while (1)`: whether it ends by the end of the stream, and what the file holds. `none`: it
-- still waits after these rounds.
unfoldable pub receive_loop : List Round → Bytes → Option (Bool × Bytes)
unfolding stored_part
receive_loop [] content = none
receive_loop (r ∷ rounds) content =
    let skipped = receive_loop rounds content in
    let next : Option (Bool × Bytes) = elim r.received [
      | failed ↦ some (false, content)
      | closed ↦ some (true, content)
      | chunk rbuf ↦ receive_loop rounds (content ++ stored_part rbuf)
    ] in
    if r.selected then next else skipped

-- `fopen(name, "w+")` and what is written until `fclose`
unfoldable pub put_file : Files → Bytes → Bytes → Files
unfolding str_eq
put_file fs name content other = if str_eq other name then some content else fs other

abbrev pub tmp_path : Bytes → Bytes
tmp_path filename = codes "/tmp/" ++ filename

unfoldable pub finish : ℤ → ℤ → Files → Bytes → Option (Bool × Bytes) → Option (ℤ × Files)
finish good bad fs filename none = none
finish good bad fs filename (some (true, content)) =
    some (good, put_file fs (tmp_path filename) content)
finish good bad fs filename (some (false, content)) =
    some (bad, put_file fs (tmp_path filename) content)

-- `fd` is what `init_connection` returned, `sent` what `send` returns.
unfoldable pub get_http_file :
    ℤ → ℤ → List Round → Files → Bytes → Bytes → Bytes → Option (ℤ × Files)
unfolding finish
get_http_file fd sent rounds fs domain_name request_url filename =
    if lt_ℤ (pos 0) fd
    then (if eq_ℤ (make_request sent (build_http_get domain_name request_url)) (negsuc 0)
        then some (negsuc 0, fs)
        else finish (pos 1) (pos 0) fs filename (receive_loop rounds []))
    else some (negsuc 0, fs)

-- `ret` and `bytes_sent` are what `SSL_connect` and `SSL_write` return; the rounds are those of
-- `SSL_read`.
unfoldable pub get_https_file : ℤ → ℤ → List Round → Files → Bytes → Option (ℤ × Files)
unfolding finish
get_https_file ret bytes_sent rounds fs filename =
    if lt_ℤ (pos 0) ret
    then (if lt_ℤ (pos 0) bytes_sent
        then finish (pos 0) (negsuc 0) fs filename (receive_loop rounds [])
        else some (negsuc 0, fs))
    else some (negsuc 0, fs)
