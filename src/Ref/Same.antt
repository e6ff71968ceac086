-- ===== src/Ref/Same.antt =====
-- `get_http_file` of Mini-Project/Ref/main.c beside that of Mini-Project/Application/src/http.c.
use gemtek_sw_training.Prelude.{
  if◌then◌else◌, lt→ltb, ne→==_false, Bool-cases, length, ℕ, suc, ◌+◌, ◌≡◌, refl, ◌⊎◌, inl, inr,
  Bool, true, false, ℤ, pos, negsuc, lt_ℤ, eq_ℤ, Option, none, some, [], arith, Bytes,
}
use gemtek_sw_training.FileHandle.{Files}
use gemtek_sw_training.Http.{init_connection, make_request, build_http_get, receive_loop, finish}
use gemtek_sw_training.Http as Http
use gemtek_sw_training.Flow.{Exchange}
use gemtek_sw_training.Ref.{get_http_file}

-- The code -1 of the later version, for a connection or a request that failed, is 0 in the earlier one.
abbrev pub recoded : Option (ℤ × Files) → Option (ℤ × Files)
recoded none = none
recoded (some (code, fs)) = some (if eq_ℤ code (negsuc 0) then pos 0 else code, fs)

recoded-finish :
    (fs : Files) (filename : Bytes) (r : Option (Bool × Bytes))
    → finish (pos 1) (pos 0) fs filename r ≡ recoded (finish (pos 1) (pos 0) fs filename r)
unfolding finish
recoded-finish fs filename none = refl
recoded-finish fs filename (some (true, content)) = refl
recoded-finish fs filename (some (false, content)) = refl

after_connection :
    (x : Exchange) (fs : Files) (domain_name request_url filename : Bytes) (sbuf : Bytes)
    → (if eq_ℤ x.sent (pos (length sbuf))
        then finish (pos 1) (pos 0) fs filename (receive_loop x.rounds [])
        else some (pos 0, fs))
      ≡ recoded (
          if eq_ℤ (make_request x.sent sbuf) (negsuc 0)
          then some (negsuc 0, fs)
          else finish (pos 1) (pos 0) fs filename (receive_loop x.rounds []))
unfolding make_request
after_connection x fs domain_name request_url filename sbuf =
    elim (Bool-cases (eq_ℤ x.sent (pos (length sbuf)))) [
      | inl e ↦ rw e (recoded-finish fs filename (receive_loop x.rounds []))
      | inr e ↦ rw e refl
    ]

no_socket : (status : ℤ) → init_connection (negsuc 0) status ≡ negsuc 0
unfolding init_connection
no_socket status = refl

socket_ok : (sockfd : ℤ) (n : ℕ) → sockfd ≡ pos (suc n) → eq_ℤ sockfd (negsuc 0) ≡ false
socket_ok sockfd n e = rw e (ne→==_false (suc n + 1) 0 (omega arith))

positive : (sockfd : ℤ) (n : ℕ) → sockfd ≡ pos (suc n) → lt_ℤ (pos 0) sockfd ≡ true
positive sockfd n e = rw e (lt→ltb 0 (suc n + 0) (omega arith))

failed_init :
    (sockfd : ℤ) (n : ℕ) → sockfd ≡ pos (suc n) → init_connection sockfd (negsuc 0) ≡ negsuc 0
unfolding init_connection
failed_init sockfd n e = rw (positive sockfd n e) refl

connected_init :
    (sockfd : ℤ) (n : ℕ) → sockfd ≡ pos (suc n) → init_connection sockfd (pos 0) ≡ sockfd
unfolding init_connection
connected_init sockfd n e = rw (positive sockfd n e) refl

-- Where `socket` returns -1 or a positive descriptor and `connect` returns -1 or 0, whatever is sent and
-- received: the two versions of `get_http_file` leave the same files, and return the same code, but that the earlier one returns 0
-- where the later one returns -1.
pub get_http_file_same :
    (x : Exchange) (fs : Files) (domain_name request_url filename : Bytes)
    → (x.sockfd ≡ negsuc 0) ⊎ ((n : ℕ) × (x.sockfd ≡ pos (suc n)))
    → (x.status ≡ negsuc 0) ⊎ (x.status ≡ pos 0)
    → get_http_file x fs domain_name request_url filename
      ≡ recoded (
          Http.get_http_file
            (init_connection x.sockfd x.status)
            x.sent
            x.rounds
            fs
            domain_name
            request_url
            filename)
unfolding get_http_file Http.get_http_file
get_http_file_same x fs domain_name request_url filename (inl e) h =
    rw (e, get_http_file, no_socket x.status, Http.get_http_file) refl
get_http_file_same x fs domain_name request_url filename (inr (n, e)) (inl h) =
    rw (socket_ok x.sockfd n e, get_http_file, h, failed_init x.sockfd n e, Http.get_http_file) refl
get_http_file_same x fs domain_name request_url filename (inr (n, e)) (inr h) =
    rw
      (
        socket_ok x.sockfd n e,
        get_http_file,
        h,
        connected_init x.sockfd n e,
        positive x.sockfd n e,
        Http.get_http_file,
      )
      (after_connection x fs domain_name request_url filename
        (build_http_get domain_name request_url))
