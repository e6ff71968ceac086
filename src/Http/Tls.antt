-- ===== src/Http/Tls.antt =====
-- src/http.c with HTTPS: `InitCTX` and `LoadCertificates`, which end the process where OpenSSL refuses
-- something, around `get_https_file`. What OpenSSL returns is an argument.
use gemtek_sw_training.Prelude.{
  if◌then◌else◌, ◌≡◌, ◌↔◌, Bool, true, false, not, ℤ, pos, lt_ℤ, eq_ℤ, Option, List, arith, Bytes,
}
use gemtek_sw_training.FileHandle.{Files}
use gemtek_sw_training.Http.{Round, get_https_file}

-- What `SSL_CTX_new` gives, a context or the null pointer, and what the two functions that read CERT_FILE
-- and KEY_FILE and `SSL_CTX_check_private_key` return.
pub record TlsSetup : Type 0 where
  pub context : Bool
  pub certificate : ℤ
  pub private_key : ℤ
  pub matching : ℤ

-- `abort()`, or what comes behind it.
pub data Tls (A : Type 0) : Type 0 where
  aborts : Tls A
  behind_setup : A → Tls A

unfoldable pub init_ctx : {A : Type 0} → TlsSetup → Tls A → Tls A
init_ctx setup next = if setup.context then next else aborts

unfoldable pub load_certificates : {A : Type 0} → TlsSetup → Tls A → Tls A
load_certificates setup next =
    if not (lt_ℤ (pos 0) setup.certificate)
    then aborts
    else if not (lt_ℤ (pos 0) setup.private_key)
    then aborts
    else if eq_ℤ setup.matching (pos 0)
    then aborts
    else next

-- The whole `get_https_file`.
unfoldable pub fetch_https :
    TlsSetup → ℤ → ℤ → List Round → Files → Bytes → Tls (Option (ℤ × Files))
unfolding init_ctx load_certificates
fetch_https setup ret bytes_sent rounds fs filename =
    init_ctx setup
      (load_certificates setup (behind_setup (get_https_file ret bytes_sent rounds fs filename)))

-- The files of the certificate and its key are read and belong together, for a context that was made.
pub record IsSetUp (setup : TlsSetup) : Type 0 where
  pub made : setup.context ≡ true
  pub certified : lt_ℤ (pos 0) setup.certificate ≡ true
  pub keyed : lt_ℤ (pos 0) setup.private_key ≡ true
  pub matched : eq_ℤ setup.matching (pos 0) ≡ false

-- The program fetches a file over HTTPS exactly if the set-up succeeds; where it does not, the process
-- ends without a code of its own, although a failed connection is reported by -1.
pub fetch_https_iff :
    (setup : TlsSetup) (ret bytes_sent : ℤ) (rounds : List Round) (fs : Files) (filename : Bytes)
    → (fetch_https setup ret bytes_sent rounds fs filename
        ≡ behind_setup (get_https_file ret bytes_sent rounds fs filename))
      ↔ IsSetUp setup
unfolding fetch_https
fetch_https_iff setup ret bytes_sent rounds fs filename = (λ e. ground arith, λ h. ground arith)
