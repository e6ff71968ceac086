-- ===== src/Http/Sockets.antt =====
-- Which descriptors src/http.c leaves open: `init_connection`, `get_http_file` and `get_https_file`.
use gemtek_sw_training.Prelude.{
  if◌then◌else◌, Bool-cases, All, ◌≡◌, refl, ap, ◌∙◌, inl, inr, Bool, true, false, not, ◌&&◌, ℤ,
  pos, negsuc, lt_ℤ, eq_ℤ, Option, none, some, List, [], ◌∷◌, arith, Bytes,
}
use gemtek_sw_training.FileHandle.{Files}
use gemtek_sw_training.Http.{
  init_connection, build_http_get, make_request, Round, receive_loop, finish, get_http_file,
  get_https_file,
}

-- The open descriptors of the process.
abbrev pub Fds : Type 0
Fds = List ℤ

unfoldable pub close : ℤ → Fds → Fds
close fd [] = []
close fd (x ∷ fds) = let rest = close fd fds in if eq_ℤ x fd then rest else x ∷ rest

-- `init_connection`: what it returns, and the descriptors. Behind `connect` it closes nothing.
unfoldable pub connect_fds : ℤ → ℤ → Fds → ℤ × Fds
unfolding init_connection
connect_fds sockfd status fds =
    (init_connection sockfd status, if lt_ℤ (pos 0) sockfd then sockfd ∷ fds else fds)

-- Behind the loop, on both of its ends.
unfoldable pub close_after : ℤ → Fds → Option (Bool × Bytes) → Option Fds
close_after fd fds none = none
close_after fd fds (some r) = some (close fd fds)

-- `get_http_file`; its file is closed where it is opened.
unfoldable pub http_fds : ℤ → ℤ → ℤ → List Round → Bytes → Bytes → Fds → Option Fds
unfolding connect_fds close_after
http_fds sockfd status sent rounds domain_name request_url fds =
    let (fd, open_fds) = connect_fds sockfd status fds in
    if lt_ℤ (pos 0) fd
    then (if eq_ℤ (make_request sent (build_http_get domain_name request_url)) (negsuc 0)
        then some (close fd open_fds)
        else close_after fd open_fds (receive_loop rounds []))
    else some open_fds

-- `get_https_file`, which goes on with the result of `init_connection` whatever it is.
unfoldable pub https_fds : ℤ → ℤ → ℤ → ℤ → List Round → Fds → Option Fds
unfolding connect_fds close_after
https_fds sockfd status ret bytes_sent rounds fds =
    let (fd, open_fds) = connect_fds sockfd status fds in
    if lt_ℤ (pos 0) ret
    then (if lt_ℤ (pos 0) bytes_sent
        then close_after fd open_fds (receive_loop rounds [])
        else some open_fds)
    else some open_fds

-- A new descriptor is none of the open ones, and no descriptor is negative.
abbrev pub IsNew : ℤ → Fds → Type 0
IsNew fd = All (λ x. eq_ℤ x fd ≡ false)

close_new : (fd : ℤ) (fds : Fds) → IsNew fd fds → close fd fds ≡ fds
unfolding close
close_new fd [] h = refl
close_new fd (x ∷ fds) (e, h) = rw (e, close_new fd fds h) refl

eq_ℤ_refl : (a : ℤ) → eq_ℤ a a ≡ true
eq_ℤ_refl a = ground arith

close_opened : (fd : ℤ) (fds : Fds) → IsNew fd fds → close fd (fd ∷ fds) ≡ fds
unfolding close
close_opened fd fds h = rw (eq_ℤ_refl fd) (close_new fd fds h)

-- What is left open: the socket, if it could not be connected.
abbrev pub left_open : Bool → ℤ → Fds → Fds
left_open lost sockfd fds = if lt_ℤ (pos 0) sockfd && lost then sockfd ∷ fds else fds

pub and_true : (b : Bool) → b && true ≡ b
and_true true = refl
and_true false = refl

and_false : (b : Bool) → b && false ≡ false
and_false true = refl
and_false false = refl

-- Without a call of `close` every socket stays open.
unclosed :
    (sockfd status : ℤ) (b : Bool) (fds : Fds)
    → (connect_fds sockfd status fds).1 ≡ left_open (not (b && false)) sockfd fds
unfolding connect_fds
unclosed sockfd status b fds = elim (Bool-cases (lt_ℤ (pos 0) sockfd)) [
  | inl a ↦ rw (a, and_false b) refl
  | inr a ↦ rw a refl
]

module _ (sockfd status : ℤ) (rounds : List Round) (fs fs' : Files) (filename : Bytes) (code : ℤ)
    (fds : Fds) (new : IsNew sockfd fds) where
  finished :
      (good bad : ℤ) (r : Option (Bool × Bytes)) (fd : ℤ) (open_fds : Fds)
      → finish good bad fs filename r ≡ some (code, fs')
      → close_after fd open_fds r ≡ some (close fd open_fds)
  unfolding finish close_after
  finished good bad none fd open_fds e = cc
  finished good bad (some r) fd open_fds e = refl

  pub http_fds-left_open :
      (sent : ℤ) (domain_name request_url : Bytes)
      → get_http_file
          (init_connection sockfd status)
          sent
          rounds
          fs
          domain_name
          request_url
          filename
        ≡ some (code, fs')
      → http_fds sockfd status sent rounds domain_name request_url fds
        ≡ some (left_open (not (eq_ℤ status (pos 0))) sockfd fds)
  unfolding http_fds get_http_file
  http_fds-left_open sent domain_name request_url e = elim (Bool-cases (lt_ℤ (pos 0) sockfd)) [
    | inr a ↦ rw (a, init_connection) refl
    | inl a ↦ elim (Bool-cases (eq_ℤ status (pos 0))) [
      | inr b ↦ rw (a, b, init_connection) refl
      | inl b ↦
          elim (Bool-cases
            (eq_ℤ (make_request sent (build_http_get domain_name request_url)) (negsuc 0))) [
              | inl k ↦ rw (a, b, init_connection, a, k, close_opened sockfd fds new) refl
              | inr k ↦
                  let e' : finish (pos 1) (pos 0) fs filename (receive_loop rounds [])
                      ≡ some (code, fs') =
                    rw (a, b, init_connection, a, k) at e in
                  rw (a, b, init_connection, a, k)
                    (finished (pos 1) (pos 0) (receive_loop rounds []) sockfd (sockfd ∷ fds) e'
                      ∙ ap some (close_opened sockfd fds new))
            ]
    ]
  ]

  -- The descriptor is -1 where the connection failed: `close` then closes nothing.
  close_connected :
      IsNew (negsuc 0) fds
      → close (init_connection sockfd status) (connect_fds sockfd status fds).1
        ≡ left_open (not (eq_ℤ status (pos 0))) sockfd fds
  unfolding connect_fds init_connection
  close_connected valid = elim (Bool-cases (lt_ℤ (pos 0) sockfd)) [
    | inr a ↦ rw a (close_new (negsuc 0) fds valid)
    | inl a ↦ elim (Bool-cases (eq_ℤ status (pos 0))) [
      | inr b ↦
          let fresh : eq_ℤ sockfd (negsuc 0) ≡ false = ground arith in
          rw (a, b) (close_new (negsuc 0) (sockfd ∷ fds) (fresh, valid))
      | inl b ↦ rw (a, b) (close_opened sockfd fds new)
    ]
  ]

  pub https_fds-left_open :
      (ret bytes_sent : ℤ)
      → IsNew (negsuc 0) fds
      → get_https_file ret bytes_sent rounds fs filename ≡ some (code, fs')
      → https_fds sockfd status ret bytes_sent rounds fds
        ≡ some (
            left_open
              (not (eq_ℤ status (pos 0) && (lt_ℤ (pos 0) ret && lt_ℤ (pos 0) bytes_sent)))
              sockfd
              fds)
  unfolding https_fds get_https_file
  https_fds-left_open ret bytes_sent valid e = elim (Bool-cases (lt_ℤ (pos 0) ret)) [
    | inr c ↦ rw (c, https_fds) (ap some (unclosed sockfd status (eq_ℤ status (pos 0)) fds))
    | inl c ↦ elim (Bool-cases (lt_ℤ (pos 0) bytes_sent)) [
      | inr d ↦ rw (c, d, https_fds) (ap some (unclosed sockfd status (eq_ℤ status (pos 0)) fds))
      | inl d ↦
          let e' : finish (pos 0) (negsuc 0) fs filename (receive_loop rounds [])
              ≡ some (code, fs') =
            rw (c, d, get_https_file) at e in
          rw (c, d, https_fds, and_true (eq_ℤ status (pos 0)))
            (finished (pos 0) (negsuc 0) (receive_loop rounds []) (init_connection sockfd status)
                (connect_fds sockfd status fds).1 e'
              ∙ ap some (close_connected valid))
    ]
  ]
