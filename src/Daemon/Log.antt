-- ===== src/Daemon/Log.antt =====
-- What the daemon writes into its log, and when it ends.
use gemtek_sw_training.Prelude.{
  ◌==◌, if◌then◌else◌, Bool-cases, Option-cases, set, All, ◌≡◌, refl, sym, ap, ◌∙◌, inl, inr, true,
  false, ℤ, pos, negsuc, eq_ℤ, Option, none, some, List, [], ◌∷◌, ◌++◌, append_assoc, append-nil,
  Bytes, codes,
}
use gemtek_sw_training.CString.Texts.{text_of}
use gemtek_sw_training.Daemon.{Calls}
use gemtek_sw_training.Daemon.Result.{Succeeds, become_daemon_iff}
use gemtek_sw_training.Daemon.LogUser.{
  LoginEntry, user_process, without_newline, log_line, logged, print_logged_users, LogRound,
  log_loop, runs, ends, daemon_main,
}

-- The line of a user, without the newline behind it.
abbrev pub user_line : Bytes → Bytes → Bytes
user_line timestamp name =
    without_newline timestamp ++ (codes ": User " ++ (name ++ codes " logged in"))

module _ (getpwnam : Bytes → Option Bytes) where
  abbrev known : LoginEntry → Option Bytes → List Bytes
  known ut none = []
  known ut (some name) = user_line ut.ctime name ∷ []

  -- A line for each process of a user that has an entry in the password file.
  unfoldable pub user_lines : List LoginEntry → List Bytes
  user_lines [] = []
  user_lines (ut ∷ uts) =
      let rest = user_lines uts in
      if ut.ut_type == user_process then known ut (getpwnam ut.ut_user) ++ rest else rest

  log_line-user_line : (t name u : Bytes) → log_line t name ++ u ≡ user_line t name ++ b'\n' ∷ u
  log_line-user_line t name u = simp append_assoc

  print_logged_users-text_of :
      (uts : List LoginEntry) → print_logged_users getpwnam uts ≡ text_of (user_lines uts)
  unfolding print_logged_users user_lines text_of logged
  print_logged_users-text_of [] = refl
  print_logged_users-text_of (ut ∷ uts) = elim (Bool-cases (ut.ut_type == user_process)) [
    | inr e ↦ rw e (print_logged_users-text_of uts)
    | inl e ↦ elim (Option-cases (getpwnam ut.ut_user)) [
      | inl n ↦ rw (e, n) (print_logged_users-text_of uts)
      | inr (name, n) ↦
          rw (e, n)
            (log_line-user_line ut.ctime name (print_logged_users getpwnam uts)
              ∙ ap (λ u. user_line ut.ctime name ++ b'\n' ∷ u) (print_logged_users-text_of uts))
    ]
  ]

  -- The lines of these rounds.
  unfoldable pub round_lines : List LogRound → List Bytes
  round_lines [] = []
  round_lines (r ∷ rounds) = user_lines r.entries ++ round_lines rounds

  text_of-append : (ls ms : List Bytes) → text_of (ls ++ ms) ≡ text_of ls ++ text_of ms
  unfolding text_of
  text_of-append [] ms = refl
  text_of-append (l ∷ ls) ms =
      ap (λ u. l ++ b'\n' ∷ u) (text_of-append ls ms)
      ∙ sym (append_assoc l (b'\n' ∷ text_of ls) (text_of ms))

  abbrev IsUnstopped : LogRound → Type 0
  IsUnstopped r = r.received_sigterm ≡ false

  log_more :
      (r : LogRound) (rounds : List LogRound) (log : Bytes)
      → IsUnstopped r
      → log_loop getpwnam (r ∷ rounds) log
        ≡ log_loop getpwnam rounds (log ++ text_of (user_lines r.entries))
  unfolding log_loop
  log_more r rounds log e =
      rw e (ap (λ u. log_loop getpwnam rounds (log ++ u)) (print_logged_users-text_of r.entries))

  log_loop_runs :
      (before : List LogRound) (log : Bytes)
      → All IsUnstopped before
      → log_loop getpwnam before log ≡ none
  log_loop_runs [] log h = unfold log_loop in refl
  log_loop_runs (r ∷ before) log (e, h) =
      log_more r before log e ∙ log_loop_runs before (log ++ text_of (user_lines r.entries)) h

  log_loop_stops :
      (before : List LogRound) (r : LogRound) (later : List LogRound) (log : Bytes)
      → All IsUnstopped before
      → r.received_sigterm ≡ true
      → log_loop getpwnam (before ++ r ∷ later) log ≡ some (log ++ text_of (round_lines before))
  unfolding round_lines text_of
  log_loop_stops [] r later log h s = unfold log_loop in rw (s, append-nil log) refl
  log_loop_stops (q ∷ before) r later log (e, h) s =
      log_more q (before ++ r ∷ later) log e
      ∙ log_loop_stops before r later (log ++ text_of (user_lines q.entries)) h s
      ∙ ap some (append_assoc log (text_of (user_lines q.entries)) (text_of (round_lines before)))
      ∙ ap (λ u. some (log ++ u)) (sym (text_of-append (user_lines q.entries) (round_lines before)))

  -- If the process became a daemon and opened its log: it runs as long as no round finds SIGTERM
  -- received, and ends with 0 at the first round that does. Behind what the log held before there is
  -- then a line for each process of a user that has an entry in the password file, in the order of
  -- the rounds before that one and of `getutent` in each, and nothing else.
  pub daemon_main-user_lines :
      (c : Calls) (log_fd : ℤ) (before : List LogRound) (r : LogRound) (later : List LogRound)
      (log : Bytes)
      → Succeeds 0 c
      → eq_ℤ log_fd (negsuc 0) ≡ false
      → All IsUnstopped before
      → r.received_sigterm ≡ true
      → (daemon_main getpwnam c log_fd before log ≡ runs)
        × (daemon_main getpwnam c log_fd (before ++ r ∷ later) log
            ≡ ends (pos 0) (log ++ text_of (round_lines before)))
  unfolding daemon_main
  daemon_main-user_lines c log_fd before r later log h opened unset set =
      let (d, e, k) = (become_daemon_iff 0 c).1 h in
      (
        rw (e, opened, log_loop_runs before log unset) refl,
        rw (e, opened, log_loop_stops before r later log unset set) refl,
      )
