-- ===== src/Flow/Sockets.antt =====
-- Which sockets a fetch of Mini-Project/Application/main.c leaves open, by either protocol.
use gemtek_sw_training.Prelude.{if◌then◌else◌, Bool, true, ◌&&◌, pos, lt_ℤ, eq_ℤ, Option, Bytes}
use gemtek_sw_training.Http.Sockets.{Fds, http_fds, https_fds}
use gemtek_sw_training.Flow.{Exchange}

-- The descriptors that are open behind `get_file`.
unfoldable pub get_file_fds : Bool → Exchange → Bytes → Bytes → Fds → Option Fds
unfolding http_fds https_fds
get_file_fds use_https x domain_name url fds =
    if use_https
    then https_fds x.sockfd x.status x.ssl_status x.ssl_sent x.rounds fds
    else http_fds x.sockfd x.status x.sent x.rounds domain_name url fds

-- Whether the connection was made, and with HTTPS the handshake and the request too.
abbrev pub is_served : Bool → Exchange → Bool
is_served use_https x =
    eq_ℤ x.status (pos 0)
    && (if use_https then lt_ℤ (pos 0) x.ssl_status && lt_ℤ (pos 0) x.ssl_sent else true)
