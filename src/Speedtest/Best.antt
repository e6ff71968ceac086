-- ===== src/Speedtest/Best.antt =====
-- `get_best_server` of src/speedtest_server.c: the URL of each latency file, and the choice.
pub mod Choice
use gemtek_sw_training.Prelude.{
  ◌==◌, if◌then◌else◌, ℕ, ◌+◌, Bool, true, false, not, ◌&&◌, ◌||◌, ℤ, pos, negsuc, ◌+ℤ◌, ◌-ℤ◌, ◌*ℤ◌,
  lt_ℤ, eq_ℤ, Option, none, some, List, [], ◌∷◌, ◌++◌, Bytes, codes,
}
use gemtek_sw_training.CString.{tokens, find_text, starts_with, line_of}
use gemtek_sw_training.Speedtest.Double.{Double}
use gemtek_sw_training.Speedtest.Server.{ServerData, SockAddr}

-- `strstr(s, p) != NULL`
abbrev pub found : Option Bytes → Bool
found none = false
found (some t) = true

abbrev pub latency_name : Bytes
latency_name = codes "latency.txt"

-- What one token adds to `latency_url[i]`. The macro that is tested here, USEHTTPS, is never defined
-- (the build defines USE_HTTPS), so the branch for `http:` is the one that is compiled.
abbrev pub latency_piece : Bytes → Bytes
latency_piece buf =
    (if found (find_text (codes "upload.") buf) then latency_name else (buf ++ codes "/"))
    ++ (if found (find_text (codes "http:") buf) then codes "/" else [])

unfoldable pub latency_loop : List Bytes → Bytes → Bytes
latency_loop [] url = url
latency_loop (t ∷ ts) url = latency_loop ts (url ++ latency_piece t)

unfoldable pub latency_url : Bytes → Bytes
unfolding latency_loop tokens find_text
latency_url url = latency_loop (tokens b'/' url) []

-- the bytes before the first slash
unfoldable pub before_slash : Bytes → Bytes
before_slash [] = []
before_slash (c ∷ s) = let rest = before_slash s in if c == b'/' then [] else c ∷ rest

-- the text behind a prefix
unfoldable pub behind : Bytes → Bytes → Option Bytes
behind [] s = some s
behind (c ∷ p) [] = none
behind (c ∷ p) (x ∷ s) = if x == c then behind p s else none

-- `%[^/]` stores nothing if it would store nothing but the empty text.
abbrev stored : Bytes → Bytes → Bytes
stored [] old = old
stored (c ∷ s) old = c ∷ s

-- `sscanf(url, "http://%[^/]", domain_name)`
unfoldable pub scan_domain : Bytes → Bytes → Bytes
unfolding before_slash behind
scan_domain url old = elim (behind (codes "http://") url) [
  | none ↦ old
  | some s ↦ stored (before_slash s) old
]

unfoldable pub skip_bytes : Bytes → Bytes → Bytes
skip_bytes [] s = s
skip_bytes (c ∷ p) [] = []
skip_bytes (c ∷ p) (x ∷ s) = skip_bytes p s

-- `latency_request_url`: what stands behind the first occurrence of the domain name.
unfoldable pub latency_request_url : Bytes → Bytes → Bytes
unfolding skip_bytes find_text
latency_request_url url domain = elim (find_text domain url) [
  | none ↦ []
  | some s ↦ skip_bytes domain s
]

-- `struct timeval`
pub record Timeval : Type 0 where
  pub tv_sec : ℤ
  pub tv_usec : ℤ

-- What the world does in one round: whether the name resolves, the clock before and after the file is
-- fetched, and the file that is then found, if there is one.
pub record Probe : Type 0 where
  pub resolved : Option SockAddr
  pub before : Timeval
  pub after : Timeval
  pub file : Option Bytes

-- The variables that live from one round to the next.
pub record Locals : Type 0 where
  pub tv1 : Timeval
  pub tv2 : Timeval
  pub line : Bytes

unfoldable pub elapsed : Timeval → Timeval → ℤ
elapsed t1 t2 = (((t2.tv_sec -ℤ t1.tv_sec) *ℤ pos 1000000) +ℤ t2.tv_usec) -ℤ t1.tv_usec

-- `fgets(line, sizeof(line), fp)` on a fresh stream: an empty file leaves `line` alone.
abbrev first_line : Bytes → Bytes → Bytes
first_line [] line = line
first_line (c ∷ s) line = (line_of 63 (c ∷ s)).0

-- `latency` from the file, the line that was read, and the clock
measured : Option Bytes → Locals → ℤ × Bytes
measured none v = (negsuc 0, v.line)
measured (some content) v =
    let line = first_line content v.line in
    (if starts_with (codes "test=test") line then elapsed v.tv1 v.tv2 else negsuc 0, line)

module _ (F : Double) (probe : ℕ → Bytes → Bytes → Probe) where
  -- One round of the first `for` loop, for slot `i`.
  unfoldable pub probe_server : ℕ → ServerData F → Locals → ServerData F × Locals
  unfolding measured
  probe_server i s v =
      let url = latency_url s.url in
      let domain = scan_domain url s.domain_name in
      let p = probe i domain (latency_request_url url domain) in
      let v' : Locals = elim p.resolved [
        | none ↦ v
        | some a ↦ record v { tv1 = p.before; tv2 = p.after }
      ] in
      let address : SockAddr = elim p.resolved [ none ↦ s.servinfo | some a ↦ a ] in
      let (latency, line) = measured p.file v' in
      (
        record s { domain_name = domain; servinfo = address; latency = latency },
        record v' { line = line },
      )

  unfoldable pub probe_servers : ℕ → List (ServerData F) → Locals → List (ServerData F)
  probe_servers i [] v = []
  probe_servers i (s ∷ rest) v =
      let (s', v') = probe_server i s v in s' ∷ probe_servers (i + 1) rest v'

-- The second `for` loop, over slot `i` and those behind it.
module _ {F : Double} where
  unfoldable pub select_best : ℕ → List (ServerData F) → ℤ → ℤ → ℤ
  select_best i [] best_index latency = best_index
  select_best i (s ∷ rest) best_index latency =
      let better = (i == 0) || (lt_ℤ s.latency latency && not (eq_ℤ s.latency (negsuc 0))) in
      select_best (i + 1) rest (if better then pos i else best_index)
        (if better then s.latency else latency)

-- The table and the returned index. `latency` is not set before the loop; its first round sets it.
unfoldable pub get_best_server :
    (F : Double)
    → (ℕ → Bytes → Bytes → Probe)
    → Locals
    → List (ServerData F)
    → ℤ × List (ServerData F)
unfolding probe_servers select_best
get_best_server F probe v servers =
    let probed = probe_servers F probe 0 servers v in
    (select_best 0 probed (negsuc 0) (pos 0), probed)
