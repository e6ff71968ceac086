-- ===== src/Tests/Background.antt =====
-- The theorems on the daemon at a concrete input.
use gemtek_sw_training.Prelude.{
  ℕ, ◌≡◌, refl, ◌↔◌, inr, true, false, pos, negsuc, Option, some, List, [], ◌∷◌, ◌++◌, Bytes, codes,
}
use gemtek_sw_training.Daemon.{Calls, Daemon, become_daemon, returns}
use gemtek_sw_training.Daemon.Result.{Succeeds, IsDaemon, become_daemon_iff}
use gemtek_sw_training.Daemon.LogUser.{LoginEntry, LogRound, runs, ends, daemon_main}
use gemtek_sw_training.Daemon.Log.{round_lines, daemon_main-user_lines}
use gemtek_sw_training.CString.Texts.{text_of}

-- Every call succeeds, and the number of open files is not known.
abbrev calls : Calls
calls = record {
  fork1 = pos 0;
  sid = pos 7;
  fork2 = pos 0;
  open_max = negsuc 0;
  opened = pos 0;
  dup_out = pos 1;
  dup_err = pos 2;
}

become_daemon_iff_example :
    ((d : Daemon) × (become_daemon 8 calls ≡ returns (pos 0) d) × IsDaemon 8 calls d)
    ↔ Succeeds 8 calls
become_daemon_iff_example = become_daemon_iff 8 calls

calls-Succeeds : Succeeds 0 calls
calls-Succeeds = record {
  first_child = refl;
  session = refl;
  second_child = refl;
  streams = inr (refl, refl, refl);
}

-- Every user is known by the name itself.
abbrev themselves : Bytes → Option Bytes
themselves name = some name

abbrev login : ℕ → Bytes → LoginEntry
login ut_type name = record { ut_type = ut_type; ut_user = name; ctime = codes "Thu Nov 26\n" }

abbrev rounds_before : List LogRound
rounds_before =
    record {
      received_sigterm = false;
      entries = login 2 (codes "reboot") ∷ login 7 (codes "ann") ∷ [];
    }
    ∷ []

daemon_main-user_lines_example :
    (daemon_main themselves calls (pos 3) rounds_before (codes "old\n") ≡ runs)
    × (daemon_main themselves calls
          (pos 3)
          (rounds_before ++ record { received_sigterm = true; entries = [] } ∷ [])
          (codes "old\n")
        ≡ ends (pos 0) (codes "old\n" ++ text_of (round_lines themselves rounds_before)))
daemon_main-user_lines_example =
    daemon_main-user_lines themselves calls (pos 3) rounds_before
      (record { received_sigterm = true; entries = [] }) [] (codes "old\n") calls-Succeeds refl
      (refl, tt) refl
