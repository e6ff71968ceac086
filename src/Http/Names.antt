-- ===== src/Http/Names.antt =====
-- Which name is resolved, and which address is taken.
use gemtek_sw_training.Prelude.{
  ==_refl, ne→==_false, Bool-cases, length, take, All, length-append, ℕ, ◌-◌, ◌≡◌, refl, ap, ◌≢◌,
  ◌⊎◌, inl, inr, true, false, Option, some, List, [], ◌∷◌, ◌++◌, arith, Bytes, codes,
}
use gemtek_sw_training.CString.{find_text, starts_with}
use gemtek_sw_training.Speedtest.Server.{SockAddr}
use gemtek_sw_training.Http.{
  port_suffix, has_port, host_token, AddrInfo, af_inet, copy_addrs, get_ipv4_addr,
}

find_text-itself : (c : ℕ) (p : Bytes) → has_port (find_text (c ∷ p) (c ∷ p)) ≡ true
unfolding find_text starts_with
find_text-itself c p = rw (==_refl c, starts_with-refl p) refl
  where
    starts_with-refl : (s : Bytes) → starts_with s s ≡ true
    starts_with-refl [] = refl
    starts_with-refl (x ∷ s) = rw (==_refl x, starts_with-refl s) refl

has_port-append : (s : Bytes) (c : ℕ) (p : Bytes) → has_port (find_text (c ∷ p) (s ++ c ∷ p)) ≡ true
has_port-append [] c p = find_text-itself c p
has_port-append (x ∷ s) c p =
    more (Bool-cases (starts_with (c ∷ p) (x ∷ (s ++ c ∷ p)))) (has_port-append s c p)
  where
    more :
        (starts_with (c ∷ p) (x ∷ (s ++ c ∷ p)) ≡ true)
          ⊎ (starts_with (c ∷ p) (x ∷ (s ++ c ∷ p)) ≡ false)
        → has_port (find_text (c ∷ p) (s ++ c ∷ p)) ≡ true
        → has_port (find_text (c ∷ p) (x ∷ (s ++ c ∷ p))) ≡ true
    more (inl e) h = unfold find_text in rw e refl
    more (inr e) h = unfold find_text in rw e h

take_front : (s t : Bytes) → take (length (s ++ t) - length t) (s ++ t) ≡ s
take_front s t = rw (count s) (front s)
  where
    count : (s : Bytes) → length (s ++ t) - length t ≡ length s
    count s = omega (arith, length-append s t)

    front : (s : Bytes) → take (length s) (s ++ t) ≡ s
    front [] = refl
    front (x ∷ s) = ap (◌∷◌ x) (front s)

host_token-port : (host : Bytes) → host_token (host ++ port_suffix) ≡ host
unfolding host_token
host_token-port host = rw (has_port-append host b':' (codes "8080")) (take_front host port_suffix)

copy_addrs-append :
    (ps : List AddrInfo) (p : AddrInfo) (qs : List AddrInfo) (old : SockAddr)
    → p.ai_family ≡ af_inet
    → All (λ (q : AddrInfo). q.ai_family ≢ af_inet) qs
    → copy_addrs (ps ++ p ∷ qs) old ≡ p.ai_addr
unfolding copy_addrs
copy_addrs-append [] p qs old h a = rw h (others qs p.ai_addr a)
  where
    others :
        (qs : List AddrInfo) (old : SockAddr)
        → All (λ (q : AddrInfo). q.ai_family ≢ af_inet) qs
        → copy_addrs qs old ≡ old
    others [] old a = refl
    others (q ∷ qs) old (n, a) = rw (ne→==_false q.ai_family af_inet n) (others qs old a)
copy_addrs-append (q ∷ ps) p qs old h a = copy_addrs-append ps p qs _ h a

-- For a name with the port 8080 behind it, `get_ipv4_addr` resolves the name without the port. If that
-- gives addresses, it returns 1 and the last IPv4 address among them.
pub get_ipv4_addr_port :
    (resolve : Bytes → Option (List AddrInfo)) (host : Bytes) (old : SockAddr) (ps : List AddrInfo)
    (p : AddrInfo) (qs : List AddrInfo)
    → resolve host ≡ some (ps ++ p ∷ qs)
    → p.ai_family ≡ af_inet
    → All (λ (q : AddrInfo). q.ai_family ≢ af_inet) qs
    → get_ipv4_addr resolve (host ++ port_suffix) old ≡ (1, p.ai_addr)
unfolding get_ipv4_addr
get_ipv4_addr_port resolve host old ps p qs e h a =
    rw (host_token-port host, e, get_ipv4_addr, copy_addrs-append ps p qs old h a) refl
