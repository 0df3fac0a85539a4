-- ===== src/Pki/Keys.antt =====
-- keysas_key.rs: the requests and the certificates that an Ed25519 or an ML-DSA-87 key signs, and the
-- check of a hybrid signature. Signing is a parameter: it may fail, as the crates' does.
use keysas.Base.{
  Bool, true, Option, Text, Bytes, codes, Result, Error, ok, message, library, or_err, ensure,
  length, ◌==◌, ◌>>=◌, ◌>>◌,
}
use keysas.Signing.{Crypto, ed25519_oid, ml_dsa87_oid}
use keysas.Pki.{CertificateFields}
use keysas.Pki.Tbs.{
  RdnSequence, BitString, TbsCertificate, CertReqInfo, X509, CertReq, Encoding,
  construct_tbs_certificate,
}

-- `ed25519_dalek::SigningKey`, with the public key that it derives.
pub record SigningKey : Type 0 where
  pub secret : Bytes
  pub verifying_key : Bytes

pub record KeysasPqKey : Type 0 where
  pub private_key : Bytes
  pub public_key : Bytes

-- `try_sign` and `Sig::sign`.
pub record Signer : Type 0 where
  pub try_sign : SigningKey → Bytes → Option Bytes
  pub pq_sign : KeysasPqKey → Bytes → Option Bytes

der_error : Error
der_error = message (codes "Failed to convert to DER")

no_scheme : Error
no_scheme = message (codes "Cannot construct new ML-DSA87 algorithm")

unfoldable pub ed_signs : Signer → SigningKey → Text → Bytes → Result Bytes
ed_signs s key failure content = or_err (s.try_sign key content) (message failure)

-- `Sig::new(MlDsa87)`, then its `sign`.
unfoldable pub pq_signs : Crypto → Signer → KeysasPqKey → Bytes → Result Bytes
unfolding no_scheme
pq_signs c s key content = do
  ensure c.pq_scheme no_scheme
  or_err (s.pq_sign key content) (message (codes "Cannot sign message"))

-- The signed part, its signature and the certificate of both.
unfoldable pub certificate_of :
    Encoding → (Bytes → Result Bytes) → Text → Error → Error → TbsCertificate → Result X509
certificate_of x sign oid der_failure bits_failure tbs = do
  content ← or_err (x.tbs_der tbs) der_failure
  sig ← sign content
  signature ← or_err (x.bit_string sig) bits_failure
  ok (record { tbs_certificate = tbs; signature_algorithm = oid; signature = signature })

request_info : Text → RdnSequence → BitString → CertReqInfo
request_info oid subject key = record {
  subject = subject;
  public_key = record { algorithm = oid; subject_public_key = key };
}

unfoldable pub request_of :
    Encoding → (Bytes → Result Bytes) → Text → RdnSequence → Bytes → Result CertReq
unfolding der_error request_info
request_of x sign oid subject key = do
  pub_key ← or_err (x.bit_string key) (message (codes "Failed get public key raw value"))
  let info = request_info oid subject pub_key
  content ← or_err (x.info_der info) der_error
  sig ← sign content
  signature ← or_err (x.bit_string sig) library
  ok (record { info = info; algorithm = oid; signature = signature })

module _ (x : Encoding) (c : Crypto) (s : Signer) where
  -- `SigningKey::generate_csr` and `generate_certificate`.
  unfoldable pub ed_generate_csr : SigningKey → RdnSequence → Result CertReq
  unfolding ed_signs
  ed_generate_csr key subject = do
    ensure (x.oid_new ed25519_oid) library
    request_of x (ed_signs s key (codes "Failed to sign certificate content")) ed25519_oid subject
        key.verifying_key

  unfoldable pub ed_generate_certificate :
      SigningKey → CertificateFields → RdnSequence → Bytes → Bytes → Bool → Result X509
  unfolding ed_signs der_error
  ed_generate_certificate key ca_infos subject_infos subject_key serial is_app_cert = do
    ensure (x.oid_new ed25519_oid) library
    tbs ←
        construct_tbs_certificate x ca_infos subject_infos subject_key serial ed25519_oid
          is_app_cert
    certificate_of x (ed_signs s key (codes "Failed to sign csr content")) ed25519_oid der_error
        library tbs

  -- `KeysasPQKey::generate_csr` and `generate_certificate`.
  unfoldable pub pq_generate_csr : KeysasPqKey → RdnSequence → Result CertReq
  unfolding pq_signs
  pq_generate_csr key subject = do
    ensure (x.oid_new ml_dsa87_oid) library
    request_of x (pq_signs c s key) ml_dsa87_oid subject key.public_key

  unfoldable pub pq_generate_certificate :
      KeysasPqKey → CertificateFields → RdnSequence → Bytes → Bytes → Bool → Result X509
  unfolding pq_signs der_error
  pq_generate_certificate key ca_infos subject_infos subject_key serial is_app_cert = do
    ensure (x.oid_new ml_dsa87_oid) library
    tbs ←
        construct_tbs_certificate x ca_infos subject_infos subject_key serial ml_dsa87_oid
          is_app_cert
    certificate_of x (pq_signs c s key) ml_dsa87_oid der_error library tbs

  -- `message_sign` and `message_verify` of both keys.
  unfoldable pub ed_message_sign : SigningKey → Bytes → Result Bytes
  unfolding ed_signs
  ed_message_sign key msg = ed_signs s key (codes "Failed to sign message content") msg

  unfoldable pub ed_message_verify : SigningKey → Bytes → Bytes → Result Bool
  ed_message_verify key msg signature = do
    ensure (length signature == 64) (message (codes "Signature is not 64 bytes long"))
    ensure (c.ed_verify key.verifying_key msg signature) library
    ok true

  unfoldable pub pq_message_sign : KeysasPqKey → Bytes → Result Bytes
  unfolding pq_signs
  pq_message_sign key msg = pq_signs c s key msg

  unfoldable pub pq_message_verify : KeysasPqKey → Bytes → Bytes → Result Bool
  unfolding no_scheme
  pq_message_verify key msg signature = do
    ensure c.pq_scheme no_scheme
    ensure (c.pq_signature signature) (message (codes "Invalid signature input"))
    ensure (c.pq_verify msg signature key.public_key)
        (message (codes "ML-DSA87 scheme not verified"))
    ok true
