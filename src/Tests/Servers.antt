-- ===== src/Tests/Servers.antt =====
-- The theorems on the tables of servers at concrete inputs.
use gemtek_sw_training.Prelude.{
  leb, get_or, replicate, All, ℕ, zero, suc, ◌+◌, ◌-◌, ◌*◌, ◌/◌, ◌≡◌, refl, true, false, pos,
  negsuc, pos_part, ◌+ℤ◌, ◌-ℤ◌, ◌*ℤ◌, ◌≤ℤ◌, none, some, List, [], arith, Bytes, codes,
}
use gemtek_sw_training.FileHandle.{Files}
use gemtek_sw_training.Speedtest.Double.{Double}
use gemtek_sw_training.Speedtest.Server.{ServerData, zero_server}
use gemtek_sw_training.Speedtest.Best.{
  Timeval, Probe, Locals, get_best_server, probe_server, probe_servers, elapsed,
}
use gemtek_sw_training.CString.{starts_with, line_of}
use gemtek_sw_training.Speedtest.Best.Choice.{
  IsBest, slot, get_best_server-IsBest, get_best_server_first,
}

-- Numbers on which the operations can be computed.
abbrev pub toy : Double
toy = record {
  Number = ℕ;
  of_int = pos_part;
  to_int = pos;
  add = ◌+◌;
  sub = ◌-◌;
  mul = ◌*◌;
  div = ◌/◌;
  pow = λ a b. a * a;
  atan2 = λ a b. a + b;
  sin = λ a. a;
  cos = λ a. a;
  sqrt = λ a. a;
  pi = 3;
  le = leb;
  atof = λ s. get_or s 0 0;
}

abbrev two_servers : Bytes
two_servers =
    codes
      "<settings>\n<server url=\"http://a/upload.php\" lat=\"7\" lon=\"2\" name=\"A\" country=\"X\"/>\n<server url=\"http://b/upload.php\" lat=\"5\" lon=\"1\" name=\"B\" country=\"Y\"/>\n"

abbrev list_file : Files
list_file name = some two_servers

pub total : (a b : ℕ) → leb a b ≡ false → leb b a ≡ true
total a b h = ground arith

pub trans : (a b c : ℕ) → leb a b ≡ true → leb b c ≡ true → leb a c ≡ true
trans a b c h k = ground arith

abbrev pub midnight : Timeval
midnight = record { tv_sec = pos 0; tv_usec = pos 0 }

abbrev pub locals : Locals
locals = record { tv1 = midnight; tv2 = midnight; line = [] }

-- The first server gives no file, and the others answer at once.
unfoldable pub first_fails : ℕ → Bytes → Bytes → Probe
first_fails zero domain request = record {
  resolved = none;
  before = midnight;
  after = midnight;
  file = none;
}
first_fails (suc i) domain request = record {
  resolved = none;
  before = midnight;
  after = midnight;
  file = some (codes "test=test\n");
}

abbrev three : List (ServerData toy)
three = replicate 3 (zero_server toy)

get_best_server-IsBest_example :
    (k : ℕ) × IsBest
      (get_best_server toy first_fails locals three).1
      (get_best_server toy first_fails locals three).0
      k
get_best_server-IsBest_example = get_best_server-IsBest first_fails locals three (omega arith)

first_failed : (slot (get_best_server toy first_fails locals three).1 0).latency ≡ negsuc 0
unfolding get_best_server first_fails probe_server probe_servers starts_with line_of elapsed ◌+ℤ◌
    ◌-ℤ◌ ◌*ℤ◌
first_failed = refl

none_below :
    All
      (λ (s : ServerData toy). negsuc 0 ≤ℤ s.latency)
      (get_best_server toy first_fails locals three).1
unfolding get_best_server first_fails probe_server probe_servers starts_with line_of elapsed ◌+ℤ◌
    ◌-ℤ◌ ◌*ℤ◌
none_below = (omega arith, (omega arith, (omega arith, tt)))

get_best_server_first_example : (get_best_server toy first_fails locals three).0 ≡ pos 0
get_best_server_first_example =
    get_best_server_first first_fails locals three (omega arith) first_failed none_below
