-- ===== src/Transfer/Urls.antt =====
-- The requests that are made from the URL of a server: by `get_best_server` for the latency, by
-- `speedtest_download` and `speedtest_upload` for their threads.
use gemtek_sw_training.Prelude.{
  ne→==_false, All, All-append, ◌≡◌, refl, ap, ◌∙◌, true, false, List, [], ◌∷◌, ◌++◌, append_assoc,
  append-nil, Bytes, codes,
}
use gemtek_sw_training.CString.{has_char, find_text, tokens}
use gemtek_sw_training.CString.Format.{is_space, skip_space}
use gemtek_sw_training.CString.Search.{Lacks}
use gemtek_sw_training.CString.Tokens.{IsToken, tokens-append, tokens_last}
use gemtek_sw_training.Speedtest.Best.{
  found, latency_name, latency_piece, latency_loop, before_slash, skip_bytes,
}
use gemtek_sw_training.Transfer.{word, after_slash, download_filename, piece, join_pieces}

-- A path of these directories and this file.
abbrev pub joined : List Bytes → Bytes → Bytes
joined [] file = file
joined (d ∷ ds) file = d ++ b'/' ∷ joined ds file

-- The URL of a server.
abbrev pub server_url : Bytes → List Bytes → Bytes → Bytes
server_url host dirs file = codes "http://" ++ (host ++ b'/' ∷ joined dirs file)

-- A part of the path, which stays as it is.
pub record IsDirectory (d : Bytes) : Type 0 where
  pub token : IsToken b'/' d
  pub no_space : All (λ c. is_space c ≡ false) d
  pub not_upload : found (find_text (codes "upload.") d) ≡ false
  pub not_http : found (find_text (codes "http:") d) ≡ false

-- The file of the path, `upload.` and an ending, which the requests replace.
pub record IsUpload (file : Bytes) : Type 0 where
  pub token : IsToken b'/' file
  pub no_space : All (λ c. is_space c ≡ false) file
  pub upload : found (find_text (codes "upload.") file) ≡ true
  pub not_http : found (find_text (codes "http:") file) ≡ false

-- A host is a name with a period, or an address.
pub record IsHost (host : Bytes) : Type 0 where
  pub token : IsToken b'/' host
  pub period : has_char b'.' host ≡ true
  pub not_upload : found (find_text (codes "upload.") host) ≡ false
  pub not_http : found (find_text (codes "http:") host) ≡ false

pub tokens-joined :
    (dirs : List Bytes) (file : Bytes)
    → All IsDirectory dirs
    → IsToken b'/' file
    → tokens b'/' (joined dirs file) ≡ dirs ++ file ∷ []
tokens-joined [] file h t = tokens_last b'/' file t
tokens-joined (d ∷ dirs) file (h, hs) t =
    tokens-append b'/' d (joined dirs file) h.token
    ∙ ap (λ ts. d ∷ ts) (tokens-joined dirs file hs t)

pub latency_piece_other :
    (d : Bytes)
    → found (find_text (codes "upload.") d) ≡ false
    → found (find_text (codes "http:") d) ≡ false
    → latency_piece d ≡ d ++ b'/' ∷ []
latency_piece_other d u h = rw (u, h) (append-nil (d ++ b'/' ∷ []))

pub latency_loop_dirs :
    (dirs : List Bytes) (file url : Bytes)
    → All IsDirectory dirs
    → IsUpload file
    → latency_loop (dirs ++ file ∷ []) url ≡ url ++ joined dirs latency_name
unfolding latency_loop
latency_loop_dirs [] file url h f = rw (f.upload, f.not_http) refl
latency_loop_dirs (d ∷ dirs) file url (h, hs) f =
    ap (λ p. latency_loop (dirs ++ file ∷ []) (url ++ p))
      (latency_piece_other d h.not_upload h.not_http)
    ∙ latency_loop_dirs dirs file (url ++ (d ++ b'/' ∷ [])) hs f
    ∙ append_assoc url (d ++ b'/' ∷ []) (joined dirs latency_name)
    ∙ ap (λ p. url ++ p) (append_assoc d (b'/' ∷ []) (joined dirs latency_name))

piece_other : (d : Bytes) → found (find_text (codes "upload.") d) ≡ false → piece d ≡ d ++ b'/' ∷ []
piece_other d u = rw u refl

pub join_pieces_dirs :
    (dirs : List Bytes) (file url : Bytes)
    → All IsDirectory dirs
    → IsUpload file
    → join_pieces (dirs ++ file ∷ []) url ≡ url ++ joined dirs download_filename
unfolding join_pieces
join_pieces_dirs [] file url h f = rw (f.upload) refl
join_pieces_dirs (d ∷ dirs) file url (h, hs) f =
    ap (λ p. join_pieces (dirs ++ file ∷ []) (url ++ p)) (piece_other d h.not_upload)
    ∙ join_pieces_dirs dirs file (url ++ (d ++ b'/' ∷ [])) hs f
    ∙ append_assoc url (d ++ b'/' ∷ []) (joined dirs download_filename)
    ∙ ap (λ p. url ++ p) (append_assoc d (b'/' ∷ []) (joined dirs download_filename))

pub before_slash-append : (w t : Bytes) → Lacks b'/' w → before_slash (w ++ b'/' ∷ t) ≡ w
unfolding before_slash
before_slash-append [] t h = refl
before_slash-append (x ∷ w) t (hx, h) = rw (ne→==_false x b'/' hx, before_slash-append w t h) refl

pub after_slash-append : (w t : Bytes) → Lacks b'/' w → after_slash (w ++ b'/' ∷ t) ≡ t
unfolding after_slash
after_slash-append [] t h = refl
after_slash-append (x ∷ w) t (hx, h) = rw (ne→==_false x b'/' hx, after_slash-append w t h) refl

pub skip_bytes-append : (p t : Bytes) → skip_bytes p (p ++ t) ≡ t
unfolding skip_bytes
skip_bytes-append [] t = refl
skip_bytes-append (c ∷ p) t = skip_bytes-append p t

abbrev pub NoSpace : Bytes → Type 0
NoSpace = All (λ c. is_space c ≡ false)

pub word-NoSpace : (s : Bytes) → NoSpace s → word s ≡ s
unfolding word
word-NoSpace [] h = refl
word-NoSpace (c ∷ s) (hc, h) = rw (hc, word-NoSpace s h) refl

pub skip_space-NoSpace : (s : Bytes) → NoSpace s → skip_space s ≡ s
unfolding skip_space
skip_space-NoSpace [] h = refl
skip_space-NoSpace (c ∷ s) (hc, h) = rw hc refl

pub joined-NoSpace :
    (dirs : List Bytes) (file : Bytes)
    → All IsDirectory dirs
    → NoSpace file
    → NoSpace (joined dirs file)
joined-NoSpace [] file h f = f
joined-NoSpace (d ∷ dirs) file (h, hs) f =
    All-append (λ c. is_space c ≡ false) d (b'/' ∷ joined dirs file) h.no_space
      (refl, joined-NoSpace dirs file hs f)
