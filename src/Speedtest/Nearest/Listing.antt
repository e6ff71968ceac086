-- ===== src/Speedtest/Nearest/Listing.antt =====
-- What `get_nearest_server` reads from the list of the servers.
use gemtek_sw_training.Prelude.{
  All-append, ◌≡◌, refl, ap, ◌∙◌, ◌≢◌, false, List, [], ◌∷◌, ◌++◌, append_assoc, arith, Bytes,
  codes,
}
use gemtek_sw_training.CString.{has_char, starts_with, c_str}
use gemtek_sw_training.CString.Search.{Lacks, has_char-false, c_str-Lacks}
use gemtek_sw_training.CString.Texts.{text_of, IsLine}
use gemtek_sw_training.Speedtest.Server.{quoted_fields}
use gemtek_sw_training.Speedtest.Server.Fields.{IsField, quoted_fields-append}

-- A server as a line of the list describes it, with what follows in that line.
pub record Entry : Type 0 where
  pub url : Bytes
  pub lat : Bytes
  pub lon : Bytes
  pub name : Bytes
  pub country : Bytes
  pub more : Bytes

-- The line of a server, as the comment of the function shows it.
abbrev pub server_line : Entry → Bytes → Bytes
server_line e more =
    codes "<server url=\""
    ++ (e.url
        ++ (codes "\" lat=\""
            ++ (e.lat
                ++ (codes "\" lon=\""
                    ++ (e.lon
                        ++ (codes "\" name=\""
                            ++ (e.name
                                ++ (codes "\" country=\"" ++ (e.country ++ b'"' ∷ more)))))))))

-- A line of the list: that of a server, or any other.
pub data Line : Type 0 where
  server : Entry → Line
  other : Bytes → Line

abbrev pub text_of_line : Line → Bytes
text_of_line (server e) = server_line e e.more
text_of_line (other l) = l

pub record IsEntry (e : Entry) : Type 0 where
  pub url_ok : IsField e.url
  pub lat_ok : IsField e.lat
  pub lon_ok : IsField e.lon
  pub name_ok : IsField e.name
  pub country_ok : IsField e.country

-- The line has no NUL, no newline, and fits into the buffer; the fields of a server do too.
abbrev pub IsOther : Bytes → Type 0
IsOther l = (starts_with (codes "<server") (l ++ b'\n' ∷ []) ≡ false) × Lacks 0 l × IsLine 510 l

abbrev pub IsListing : Line → Type 0
IsListing (server e) =
    IsEntry e × Lacks 0 (server_line e e.more) × IsLine 510 (server_line e e.more)
IsListing (other l) = IsOther l

pub entry-quoted_fields :
    (e : Entry) (more : Bytes)
    → IsEntry e
    → quoted_fields 5 (server_line e more) ≡ e.url ∷ e.lat ∷ e.lon ∷ e.name ∷ e.country ∷ []
unfolding has_char quoted_fields
entry-quoted_fields e more h =
    quoted_fields-append 4 b'<' (codes "server url=") e.url _
      (no_quotes (codes "<server url=") refl) h.url_ok
    ∙ ap (λ fs. e.url ∷ fs)
        (quoted_fields-append 3 b' ' (codes "lat=") e.lat _ (no_quotes (codes " lat=") refl)
            h.lat_ok
          ∙ ap (λ fs. e.lat ∷ fs)
              (quoted_fields-append 2 b' ' (codes "lon=") e.lon _ (no_quotes (codes " lon=") refl)
                  h.lon_ok
                ∙ ap (λ fs. e.lon ∷ fs)
                    (quoted_fields-append 1 b' ' (codes "name=") e.name _
                        (no_quotes (codes " name=") refl) h.name_ok
                      ∙ ap (λ fs. e.name ∷ fs)
                          (quoted_fields-append 0 b' ' (codes "country=") e.country more
                            (no_quotes (codes " country=") refl) h.country_ok))))
  where
    no_quotes : (s : Bytes) → has_char b'"' s ≡ false → Lacks b'"' s
    no_quotes s e = (has_char-false b'"' s).0 e

pub server_line-append :
    (e : Entry) (more t : Bytes) → server_line e more ++ t ≡ server_line e (more ++ t)
server_line-append e more t =
    ap (λ r. codes "<server url=\"" ++ r)
      (append_assoc e.url _ t
        ∙ ap (λ r. e.url ++ (codes "\" lat=\"" ++ r))
            (append_assoc e.lat _ t
              ∙ ap (λ r. e.lat ++ (codes "\" lon=\"" ++ r))
                  (append_assoc e.lon _ t
                    ∙ ap (λ r. e.lon ++ (codes "\" name=\"" ++ r))
                        (append_assoc e.name _ t
                          ∙ ap (λ r. e.name ++ (codes "\" country=\"" ++ r))
                              (append_assoc e.country (b'"' ∷ more) t)))))

unfoldable pub texts_of_lines : List Line → List Bytes
texts_of_lines [] = []
texts_of_lines (l ∷ ls) = text_of_line l ∷ texts_of_lines ls

abbrev pub tag : Bytes
tag = codes "<servers>"

-- The file with these lines before the line `<servers>`, and these behind it.
unfoldable pub listing : List Bytes → List Line → Bytes
unfolding texts_of_lines
listing before ls = text_of (before ++ tag ∷ texts_of_lines ls)

pub newline_server_line :
    (e : Entry)
    → Lacks 0 (server_line e e.more)
    → c_str (server_line e e.more ++ b'\n' ∷ []) ≡ server_line e (e.more ++ b'\n' ∷ [])
newline_server_line e h =
    c_str-Lacks (server_line e e.more ++ b'\n' ∷ [])
      (All-append (λ x. x ≢ 0) (server_line e e.more) (b'\n' ∷ []) h (omega arith, tt))
    ∙ server_line-append e e.more (b'\n' ∷ [])
