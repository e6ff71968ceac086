-- ===== src/Speedtest/Server.antt =====
-- inc/speedtest_server.h and inc/main.h: the records of the servers and of the client.
pub mod Fields
use gemtek_sw_training.Prelude.{
  ◌==◌, if◌then◌else◌, ℕ, zero, suc, ℤ, pos, Option, none, some, List, [], ◌∷◌, Bytes,
}
use gemtek_sw_training.Speedtest.Double.{Double}

-- `struct sockaddr_in`
pub record SockAddr : Type 0 where
  pub sin_family : ℕ
  pub sin_port : ℕ
  pub sin_addr : ℕ

-- `server_data_t`. A `char[128]` is the string in it: the model is faithful as long as each string
-- fits, since `sscanf` reads up to 255 bytes into it.
pub record ServerData (F : Double) : Type 0 where
  pub url : Bytes
  pub latitude : F.Number
  pub longitude : F.Number
  pub name : Bytes
  pub country : Bytes
  pub distance : F.Number
  pub latency : ℤ
  pub domain_name : Bytes
  pub servinfo : SockAddr

-- `client_data_t`
pub record ClientData (F : Double) : Type 0 where
  pub ip_addr : Bytes
  pub latitude : F.Number
  pub longitude : F.Number
  pub isp : Bytes

-- `memset(…, 0, sizeof(server_data_t))`
abbrev pub zero_server : (F : Double) → ServerData F
zero_server F = record {
  url = [];
  latitude = F.of_int (pos 0);
  longitude = F.of_int (pos 0);
  name = [];
  country = [];
  distance = F.of_int (pos 0);
  latency = pos 0;
  domain_name = [];
  servinfo = record { sin_family = 0; sin_port = 0; sin_addr = 0 };
}

-- One `%*[^"]"%255[^"]"` of the format: what it skips is not empty, and neither is the field.
skip_to_quote : Bytes → Option Bytes
skip_to_quote [] = none
skip_to_quote (c ∷ s) = let rest = skip_to_quote s in if c == b'"' then some s else rest

take_field : ℕ → Bytes → Bytes × Bytes
take_field zero s = ([], s)
take_field (suc n) [] = ([], [])
take_field (suc n) (c ∷ s) =
    let rest = take_field n s in if c == b'"' then ([], c ∷ s) else (c ∷ rest.0, rest.1)

-- What is stored for a field and the text behind it; the format goes on behind a quote.
stored_field : (Bytes → List Bytes) → Bytes × Bytes → List Bytes
stored_field next ([], rest) = []
stored_field next (x ∷ s, []) = (x ∷ s) ∷ []
stored_field next (x ∷ s, q ∷ u) = if q == b'"' then (x ∷ s) ∷ next u else (x ∷ s) ∷ []

-- The fields that `sscanf` stores, `count` at most, and none behind the first that does not match.
unfoldable pub quoted_fields : ℕ → Bytes → List Bytes
unfolding skip_to_quote take_field stored_field
quoted_fields zero s = []
quoted_fields (suc count) [] = []
quoted_fields (suc count) (c ∷ s) = if c == b'"' then [] else elim (skip_to_quote s) [
  | none ↦ []
  | some t ↦ stored_field (λ u. quoted_fields count u) (take_field 255 t)
]
