-- ===== src/Speedtest/Client/Position.antt =====
-- What `get_ip_address_position` reads from the file.
use gemtek_sw_training.Prelude.{
  All, All-append, ◌≡◌, refl, ap, ◌∙◌, ◌≢◌, true, false, some, List, [], ◌∷◌, ◌++◌, arith, Bytes,
  codes,
}
use gemtek_sw_training.CString.{lines, starts_with, c_str}
use gemtek_sw_training.CString.{has_char}
use gemtek_sw_training.CString.Search.{Lacks, has_char-false, c_str-Lacks}
use gemtek_sw_training.FileHandle.{Files}
use gemtek_sw_training.Http.{tmp_path}
use gemtek_sw_training.Speedtest.Double.{Double}
use gemtek_sw_training.Speedtest.Server.{ClientData, quoted_fields}
use gemtek_sw_training.Speedtest.Server.Fields.{IsField, quoted_fields-append}
use gemtek_sw_training.Speedtest.Client.{
  stored_client, read_client, find_client, get_ip_address_position,
}

-- The line that describes a client, as the comment of the function shows it.
abbrev pub client_line : Bytes → Bytes → Bytes → Bytes → Bytes → Bytes
client_line ip lat lon isp more =
    codes "<client ip=\""
    ++ (ip
        ++ (codes "\" lat=\""
            ++ (lat
                ++ (codes "\" lon=\"" ++ (lon ++ (codes "\" isp=\"" ++ (isp ++ b'"' ∷ more)))))))

abbrev pub IsOther : Bytes → Type 0
IsOther l = starts_with (codes "<client") (c_str l) ≡ false

client_line-quoted_fields :
    (ip lat lon isp more : Bytes)
    → IsField ip
    → IsField lat
    → IsField lon
    → IsField isp
    → quoted_fields 4 (client_line ip lat lon isp more) ≡ ip ∷ lat ∷ lon ∷ isp ∷ []
unfolding has_char quoted_fields
client_line-quoted_fields ip lat lon isp more h1 h2 h3 h4 =
    quoted_fields-append 3 b'<' (codes "client ip=") ip _ (no_quotes (codes "<client ip=") refl) h1
    ∙ ap (λ fs. ip ∷ fs)
        (quoted_fields-append 2 b' ' (codes "lat=") lat _ (no_quotes (codes " lat=") refl) h2
          ∙ ap (λ fs. lat ∷ fs)
              (quoted_fields-append 1 b' ' (codes "lon=") lon _ (no_quotes (codes " lon=") refl) h3
                ∙ ap (λ fs. lon ∷ fs)
                    (quoted_fields-append 0 b' ' (codes "isp=") isp more
                      (no_quotes (codes " isp=") refl) h4)))
  where
    no_quotes : (s : Bytes) → has_char b'"' s ≡ false → Lacks b'"' s
    no_quotes s e = (has_char-false b'"' s).0 e

-- A text without NUL, with a piece of the line before it.
piece-Lacks :
    (mark s t : Bytes)
    → has_char 0 mark ≡ false
    → IsField s
    → Lacks 0 t
    → Lacks 0 (mark ++ (s ++ t))
piece-Lacks mark s t e f h =
    All-append (λ x. x ≢ 0) mark (s ++ t) ((has_char-false 0 mark).0 e)
      (All-append (λ x. x ≢ 0) s t f.no_nul h)

client_line-c_str :
    (ip lat lon isp more : Bytes)
    → IsField ip
    → IsField lat
    → IsField lon
    → IsField isp
    → Lacks 0 more
    → c_str (client_line ip lat lon isp more) ≡ client_line ip lat lon isp more
unfolding has_char
client_line-c_str ip lat lon isp more h1 h2 h3 h4 h =
    c_str-Lacks (client_line ip lat lon isp more) (
      piece-Lacks (codes "<client ip=\"") ip _ refl h1 (
        piece-Lacks (codes "\" lat=\"") lat _ refl h2 (
          piece-Lacks (codes "\" lon=\"") lon _ refl h3
            (piece-Lacks (codes "\" isp=\"") isp _ refl h4 (omega arith, h)))))

module _ (F : Double) where
  find_client-append :
      (before : List Bytes) (l : Bytes) (rest : List Bytes) (d : ClientData F)
      → All IsOther before
      → starts_with (codes "<client") (c_str l) ≡ true
      → find_client F (before ++ l ∷ rest) d ≡ read_client F (c_str l) d
  unfolding find_client
  find_client-append [] l rest d h e = rw e refl
  find_client-append (b ∷ before) l rest d (hb, h) e =
      let other : starts_with (codes "<client") (c_str b) ≡ false = hb in
      rw other (find_client-append before l rest d h e)

  read_client-client_line :
      (ip lat lon isp more : Bytes) (d : ClientData F)
      → IsField ip
      → IsField lat
      → IsField lon
      → IsField isp
      → read_client F (client_line ip lat lon isp more) d
        ≡ record { ip_addr = ip; latitude = F.atof lat; longitude = F.atof lon; isp = isp }
  unfolding read_client
  read_client-client_line ip lat lon isp more d h1 h2 h3 h4 =
      ap (λ fs. stored_client F fs d) (client_line-quoted_fields ip lat lon isp more h1 h2 h3 h4)

  -- If the file can be opened and a line of it is `<client ip="…" lat="…" lon="…" isp="…"` and more, with
  -- texts that are not empty and fit into the buffers, and no line before it starts with `<client`,
  -- then `get_ip_address_position` returns 1, the texts for the address and the provider, and the
  -- numbers that `atof` makes of the two others.
  pub get_ip_address_position-client_line :
      (fs : Files) (filename content : Bytes) (d : ClientData F) (before : List Bytes)
      (ip lat lon isp more : Bytes) (rest : List Bytes)
      → fs (tmp_path filename) ≡ some content
      → lines 510 content ≡ before ++ client_line ip lat lon isp more ∷ rest
      → All IsOther before
      → IsField ip
      → IsField lat
      → IsField lon
      → IsField isp
      → Lacks 0 more
      → get_ip_address_position F fs filename d
        ≡ some
            (1, record { ip_addr = ip; latitude = F.atof lat; longitude = F.atof lon; isp = isp })
  unfolding get_ip_address_position
  get_ip_address_position-client_line fs filename content d before ip lat lon isp more rest e l h h1
        h2 h3 h4 k =
      rw (e, get_ip_address_position, l) (ap (λ r. some (1, r)) found)
    where
      marked : starts_with (codes "<client") (c_str (client_line ip lat lon isp more)) ≡ true
      marked = rw (client_line-c_str ip lat lon isp more h1 h2 h3 h4 k) (unfold starts_with in refl)

      found :
          find_client F (before ++ client_line ip lat lon isp more ∷ rest) d
          ≡ record { ip_addr = ip; latitude = F.atof lat; longitude = F.atof lon; isp = isp }
      found =
          find_client-append before (client_line ip lat lon isp more) rest d h marked
          ∙ ap (λ s. read_client F s d) (client_line-c_str ip lat lon isp more h1 h2 h3 h4 k)
          ∙ read_client-client_line ip lat lon isp more d h1 h2 h3 h4
