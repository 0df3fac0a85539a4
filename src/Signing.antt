-- ===== src/Signing.antt =====
-- keysas_lib: the SHA-256 digest of a file (lib.rs) and the validation of a signing certificate
-- (certificate_field.rs). The cryptography is that of the crates sha2, base64, ed25519-dalek, oqs and
-- x509-cert: a record of functions, the parameter `c` of what uses it.
pub mod Chunks
pub mod Validate
pub mod Accept
use keysas.Base.{
  ℕ, ◌≡◌, Bool, true, false, Option, none, some, List, [], ◌∷◌, ◌++◌, Text, Bytes, codes, text_eq,
  length, is_empty, take, ◌==◌, if◌then◌else◌, Result, Error, ok, err, message, library, ensure,
  or_err, ◌>>=◌, ◌>>◌,
}

-- What the source reads of an X.509 certificate. `signature.as_bytes()` is none where the bit string
-- has unused bits, `to_der()` may fail.
pub record Certificate : Type 0 where
  pub oid : Text
  pub public_key : Bytes
  pub signature : Option Bytes
  pub tbs_der : Option Bytes

pub record Crypto : Type 0 where
  pub sha256_hex : Bytes → Text
  pub b64_encode : Bytes → Text
  pub b64_decode : Text → Option Bytes
  pub from_pem : Text → Option Certificate
  -- `VerifyingKey::from_bytes` and `verify_strict`, of the key, the message and the signature
  pub ed_key : Bytes → Bool
  pub ed_verify : Bytes → Bytes → Bytes → Bool
  -- `Sig::new(MlDsa87)`, `public_key_from_bytes`, `signature_from_bytes` and `verify`
  pub pq_scheme : Bool
  pub pq_key : Bytes → Bool
  pub pq_signature : Bytes → Bool
  pub pq_verify : Bytes → Bytes → Bytes → Bool

-- pki.rs
abbrev pub ed25519_oid : Text
ed25519_oid = codes "1.3.101.112"

abbrev pub ml_dsa87_oid : Text
ml_dsa87_oid = codes "2.16.840.1.101.3.4.3.19"

-- `sha256_digest`: the file is read in chunks of at most a megabyte, an empty read ends it, and a
-- failed read (`none`) is an error. The hasher is sha2's.
module _ {H : Type 0} (update : H → Bytes → H) (finalize : H → Text) where
  unfoldable pub sha256_loop : H → List (Option Bytes) → Result Text
  sha256_loop h [] = ok (finalize h)
  sha256_loop h (none ∷ reads) = err library
  sha256_loop h (some chunk ∷ reads) =
      let rest = sha256_loop (update h chunk) reads in
      if is_empty chunk then ok (finalize h) else rest

-- The Ed25519 branch of `validate_signing_certificate`.
validate_ed25519 : Crypto → Certificate → Certificate → Result Certificate
validate_ed25519 c ca cert = do
  ensure (length ca.public_key == 32)
      (message (codes "Cannot copy slice into ca_key_bytes_casted, not 32 bytes long"))
  ensure (c.ed_key ca.public_key) library
  sig ← or_err cert.signature (message (codes "Signature field is empty"))
  ensure (length sig == 64)
      (message (codes "Cannot copy slice into cert_signature_casted, not 64 bytes long"))
  der ← or_err cert.tbs_der library
  ensure (c.ed_verify ca.public_key der sig) library
  ok cert

-- The ML-DSA-87 branch.
validate_ml_dsa87 : Crypto → Certificate → Certificate → Result Certificate
validate_ml_dsa87 c ca cert = do
  ensure c.pq_scheme (message (codes "Cannot construct new ML-DSA87 algorithm"))
  ensure (c.pq_key ca.public_key) (message (codes "Invalid ML-DSA87 key"))
  sig ← or_err cert.signature (message (codes "Signature field is empty"))
  ensure (c.pq_signature sig) (message (codes "Failed to parse pq signature field"))
  der ← or_err cert.tbs_der library
  ensure (c.pq_verify der sig ca.public_key) (message (codes "Certificate is not verified"))
  ok cert

pub validate_with_ca : Crypto → Certificate → Certificate → Result Certificate
validate_with_ca c ca cert =
    if text_eq ca.oid ed25519_oid
    then validate_ed25519 c ca cert
    else if text_eq ca.oid ml_dsa87_oid
    then validate_ml_dsa87 c ca cert
    else err (message (codes "Signature algorithm not supported"))

validate_parsed : Crypto → Option Certificate → Certificate → Result Certificate
validate_parsed c none cert = ok cert
validate_parsed c (some ca) cert = validate_with_ca c ca cert

unfoldable pub validate_signing_certificate :
    Crypto → Text → Option Certificate → Result Certificate
unfolding validate_parsed validate_with_ca validate_ed25519 validate_ml_dsa87
validate_signing_certificate c pem ca_cert = do
  cert ← or_err (c.from_pem pem) library
  validate_parsed c ca_cert cert
