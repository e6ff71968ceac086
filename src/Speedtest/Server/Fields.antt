-- ===== src/Speedtest/Server/Fields.antt =====
-- What the formats of `sscanf` in src/speedtest_server.c and src/http.c read from a text in quotes.
use gemtek_sw_training.Prelude.{
  ne→==_false, length, ℕ, zero, suc, ◌≤◌, ◌<◌, ◌≡◌, refl, ap, some, [], ◌∷◌, ◌++◌, arith, Bytes,
}
use gemtek_sw_training.CString.Search.{Lacks}
use gemtek_sw_training.Speedtest.Server.{skip_to_quote, take_field, stored_field, quoted_fields}

-- A text that is read as one field, and that fits into the buffers, the smallest of which has 64 bytes.
pub record IsField (s : Bytes) : Type 0 where
  pub no_quote : Lacks b'"' s
  pub no_nul : Lacks 0 s
  pub some_byte : 0 < length s
  pub fits : length s < 64

skip_to_quote-append :
    (mark u : Bytes) → Lacks b'"' mark → skip_to_quote (mark ++ b'"' ∷ u) ≡ some u
unfolding skip_to_quote
skip_to_quote-append [] u h = refl
skip_to_quote-append (c ∷ mark) u (hc, h) =
    rw (ne→==_false c b'"' hc) (skip_to_quote-append mark u h)

take_field-append :
    (n : ℕ) (s u : Bytes)
    → Lacks b'"' s
    → length s ≤ n
    → take_field n (s ++ b'"' ∷ u) ≡ (s, b'"' ∷ u)
unfolding take_field
take_field-append zero [] u h k = refl
take_field-append zero (c ∷ s) u h k = absurd (omega arith)
take_field-append (suc n) [] u h k = refl
take_field-append (suc n) (c ∷ s) u (hc, h) k =
    rw (ne→==_false c b'"' hc, take_field-append n s u h (omega arith)) refl

-- The text up to the next quote is skipped, and the text between the quotes is read.
pub quoted_fields-append :
    (n c : ℕ) (mark s u : Bytes)
    → Lacks b'"' (c ∷ mark)
    → IsField s
    → quoted_fields (suc n) (c ∷ (mark ++ b'"' ∷ (s ++ b'"' ∷ u))) ≡ s ∷ quoted_fields n u
unfolding quoted_fields
quoted_fields-append n c mark [] u (hc, h) f = absurd (let k = f.some_byte in omega arith)
quoted_fields-append n c mark (x ∷ s) u (hc, h) f =
    let k = f.fits in
    let e : take_field 255 (x ∷ (s ++ b'"' ∷ u)) ≡ (x ∷ s, b'"' ∷ u) =
      take_field-append 255 (x ∷ s) u f.no_quote (omega arith) in
    rw (ne→==_false c b'"' hc, skip_to_quote-append mark (x ∷ (s ++ b'"' ∷ u)) h)
      (ap (stored_field (λ v. quoted_fields n v)) e)
