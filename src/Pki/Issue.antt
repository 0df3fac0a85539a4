-- ===== src/Pki/Issue.antt =====
-- pki.rs and keysas_hybrid_keypair.rs: the certificate of a request, the root key pair and the key
-- pairs that it signs. What the system's generator draws (keys, serial numbers) is an argument.
use keysas.Base.{
  Bool, true, Option, [], ◌∷◌, Text, Bytes, codes, text_eq, length, ◌==◌, if◌then◌else◌, Result,
  err, ok, message, library, or_err, ensure, ◌>>=◌, ◌>>◌,
}
use keysas.Signing.{Crypto, ed25519_oid, ml_dsa87_oid}
use keysas.Pki.{CertificateFields}
use keysas.Pki.Tbs.{RdnSequence, X509, CertReq, Encoding, generate_dn, construct_tbs_certificate}
use keysas.Pki.Keys.{
  SigningKey, KeysasPqKey, Signer, certificate_of, ed_generate_csr, ed_generate_certificate,
  pq_generate_csr, pq_generate_certificate,
}

pub record HybridKeyPair : Type 0 where
  pub classic : SigningKey
  pub classic_cert : X509
  pub pq : KeysasPqKey
  pub pq_cert : X509

-- What one run draws: `generate_new`, `keypair()` (which may fail), and the two serial numbers.
pub record Drawn : Type 0 where
  pub classic : SigningKey
  pub pq : Option KeysasPqKey
  pub ed_serial : Bytes
  pub pq_serial : Bytes

abbrev root_ed_serial : Bytes
root_ed_serial = 1 ∷ 1 ∷ 1 ∷ 1 ∷ 1 ∷ 1 ∷ 1 ∷ 1 ∷ 1 ∷ 1 ∷ 1 ∷ 1 ∷ 1 ∷ 1 ∷ 1 ∷ 1 ∷ 1 ∷ 1 ∷ 1 ∷ 1 ∷ []

abbrev root_pq_serial : Bytes
root_pq_serial = 2 ∷ 1 ∷ 1 ∷ 1 ∷ 1 ∷ 1 ∷ 1 ∷ 1 ∷ 1 ∷ 1 ∷ 1 ∷ 1 ∷ 1 ∷ 1 ∷ 1 ∷ 1 ∷ 1 ∷ 1 ∷ 1 ∷ 1 ∷ []

-- `with_context`: the text that an error is shown with.
abbrev pub with_context {ℓ} : {T : Type ℓ} → Result T → Text → Result T
with_context first text = elim first [ err e ↦ err (message text) | ok t ↦ ok t ]

module _ (x : Encoding) (c : Crypto) (s : Signer) where
  -- The two branches of `generate_cert_from_csr`: the request is signed by the key that it carries.
  unfoldable pub cert_from_ed_csr :
      SigningKey → CertReq → CertificateFields → Bytes → Bytes → Bool → Result X509
  cert_from_ed_csr ca csr pki_info pub_key serial is_app_cert = do
    ensure (length pub_key == 32) (message (codes "Invalid public key length"))
    ensure (c.ed_key pub_key) library
    ensure (length csr.signature.raw_bytes == 64)
        (message (codes "Invalid CSR signature: not 64 bytes long"))
    der ← or_err (x.info_der csr.info) library
    ensure (c.ed_verify pub_key der csr.signature.raw_bytes)
        (message (codes "Invalid CSR signature"))
    ed_generate_certificate x c s ca pki_info csr.info.subject pub_key serial is_app_cert

  unfoldable pub cert_from_pq_csr :
      KeysasPqKey → CertReq → CertificateFields → Bytes → Bytes → Bool → Result X509
  cert_from_pq_csr ca csr pki_info pub_key serial is_app_cert = do
    ensure c.pq_scheme (message (codes "Cannot construct new ML-DSA87 algorithm"))
    der ← or_err (x.info_der csr.info) library
    ensure (c.pq_signature csr.signature.raw_bytes) (message (codes "Failed to create signature"))
    ensure (c.pq_key pub_key) (message (codes "Failed to create public key"))
    ensure (c.pq_verify der csr.signature.raw_bytes pub_key)
        (message (codes "Invalid CSR signature"))
    pq_generate_certificate x c s ca pki_info csr.info.subject pub_key serial is_app_cert

  unfoldable pub cert_by_algorithm :
      SigningKey → KeysasPqKey → CertReq → CertificateFields → Bytes → Bytes → Bool → Result X509
  unfolding cert_from_ed_csr cert_from_pq_csr
  cert_by_algorithm classic pq csr pki_info pub_key serial is_app_cert =
      if text_eq csr.info.public_key.algorithm ed25519_oid
      then cert_from_ed_csr classic csr pki_info pub_key serial is_app_cert
      else if text_eq csr.info.public_key.algorithm ml_dsa87_oid
      then cert_from_pq_csr pq csr pki_info pub_key serial is_app_cert
      else err (message (codes "Invalid algorithm OID"))

  unfoldable pub generate_cert_from_csr :
      HybridKeyPair → CertReq → CertificateFields → Bytes → Bool → Result X509
  unfolding cert_by_algorithm
  generate_cert_from_csr ca_keys csr pki_info serial is_app_cert = do
    pub_key ←
        or_err csr.info.public_key.subject_public_key.as_bytes
          (message (codes "Subject public key missing"))
    ensure (x.oid_new ml_dsa87_oid) library
    ensure (x.oid_new ed25519_oid) library
    cert_by_algorithm ca_keys.classic ca_keys.pq csr pki_info pub_key serial is_app_cert

  unfoldable pub generate_root_ed25519 : SigningKey → CertificateFields → Result X509
  generate_root_ed25519 key infos = do
    ensure (x.oid_new ed25519_oid) (message (codes "Failed to generate OID"))
    subject ← generate_dn x infos
    tbs ←
        construct_tbs_certificate x infos subject key.verifying_key root_ed_serial ed25519_oid true
    certificate_of x
        (λ content.
          or_err (s.try_sign key content) (message (codes "Failed to sign certificate content")))
        ed25519_oid (message (codes "Failed to convert to DER"))
        (message (codes "Failed to convert signature to bytes")) tbs

  unfoldable pub generate_root_mldsa :
      Option KeysasPqKey → CertificateFields → Result (KeysasPqKey × X509)
  generate_root_mldsa drawn infos = do
    ensure c.pq_scheme (message (codes "Cannot construct new ML-DSA87 algorithm"))
    key ← or_err drawn (message (codes "Cannot generate new ML-DSA87 keypair"))
    ensure (x.oid_new ml_dsa87_oid) library
    subject ← generate_dn x infos
    tbs ← construct_tbs_certificate x infos subject key.public_key root_pq_serial ml_dsa87_oid true
    cert ←
        certificate_of x
          (λ content. or_err (s.pq_sign key content) (message (codes "Cannot sign message")))
          ml_dsa87_oid library library tbs
    ok (key, cert)

  unfoldable pub generate_root : Drawn → CertificateFields → Result HybridKeyPair
  generate_root drawn infos = do
    cert_ed ←
        with_context (generate_root_ed25519 drawn.classic infos) (codes "ED25519 generation failed")
    (key, cert_dl) ←
        with_context (generate_root_mldsa drawn.pq infos) (codes "ML-DSA87 generation failed")
    ok (record { classic = drawn.classic; classic_cert = cert_ed; pq = key; pq_cert = cert_dl })

  unfoldable pub generate_signed_keypair :
      HybridKeyPair → Drawn → RdnSequence → CertificateFields → Bool → Result HybridKeyPair
  generate_signed_keypair ca_keys drawn subject_name pki_infos is_app_key = do
    csr_ed ← ed_generate_csr x c s drawn.classic subject_name
    cert_ed ← generate_cert_from_csr ca_keys csr_ed pki_infos drawn.ed_serial is_app_key
    ensure c.pq_scheme (message (codes "Cannot construct new ML-DSA87 algorithm"))
    key ← or_err drawn.pq (message (codes "Cannot generate new ML-DSA87 keypair"))
    csr_dl ← pq_generate_csr x c s key subject_name
    cert_dl ← generate_cert_from_csr ca_keys csr_dl pki_infos drawn.pq_serial is_app_key
    ok (record { classic = drawn.classic; classic_cert = cert_ed; pq = key; pq_cert = cert_dl })
