-- ===== src/Pki/Chain.antt =====
-- keysas_key.rs and certificate_field.rs: issued certificates under validation.
use keysas.Base.{◌≡◌, ap, ◌∙◌, true, some, Text, Bytes, length, ok}
use keysas.Signing.{Crypto, ed25519_oid, ml_dsa87_oid, validate_signing_certificate}
use keysas.Signing.Accept.{validate-ed25519, validate-ml_dsa87}
use keysas.Pki.Tbs.{BitString, RdnSequence, X509, Encoding, seen}
use keysas.Pki.Keys.{SigningKey, KeysasPqKey, Signer}
use keysas.Pki.Issued.{IsCertificateOf, EdIssues, PqIssues}

-- A bit string made of bytes has these bytes and no unused bit.
abbrev pub KeepsBytes : Encoding → Type 0
KeepsBytes x =
    (b : Bytes) (s : BitString)
    → x.bit_string b ≡ some s
    → (s.raw_bytes ≡ b) × (s.as_bytes ≡ some b)

-- The public key is a key, and what the key signs verifies under it.
abbrev pub EdVerifies : Crypto → Signer → SigningKey → Type 0
EdVerifies c s key =
    (length key.verifying_key ≡ 32)
    × (c.ed_key key.verifying_key ≡ true)
    × ((m sig : Bytes)
        → s.try_sign key m ≡ some sig
        → (length sig ≡ 64) × (c.ed_verify key.verifying_key m sig ≡ true))

abbrev pub PqVerifies : Crypto → Signer → KeysasPqKey → Type 0
PqVerifies c s key =
    (c.pq_scheme ≡ true)
    × (c.pq_key key.public_key ≡ true)
    × ((m sig : Bytes)
        → s.pq_sign key m ≡ some sig
        → (c.pq_signature sig ≡ true) × (c.pq_verify m sig key.public_key ≡ true))

module _ (x : Encoding) (c : Crypto) (s : Signer) (kept : KeepsBytes x) where
  -- A certificate that a key issued is accepted under any certificate of that key.
  pub ed-accepted :
      (ca : SigningKey) (ca_cert cert : X509) {subject : RdnSequence} {key : Bytes} {pem : Text}
      → EdVerifies c s ca
      → IsCertificateOf x ed25519_oid ca.verifying_key ca_cert
      → EdIssues x c s ca subject key cert
      → c.from_pem pem ≡ some (seen x cert)
      → validate_signing_certificate c pem (some (seen x ca_cert)) ≡ ok (seen x cert)
  unfolding seen
  ed-accepted ca ca_cert cert (size, sound, verifies) (oid, key_is) (_, _, issue) parsed =
      let (content, sig, der, signed, bits) = issue in
      let (sig_size, good) = verifies content sig signed in
      let (same, _) = kept _ _ key_is in
      let (_, whole) = kept _ _ bits in
      validate-ed25519 c (seen x ca_cert) (seen x cert) sig content parsed oid
        (ap length same ∙ size) (ap c.ed_key same ∙ sound) whole sig_size der
        (ap (λ k. c.ed_verify k content sig) same ∙ good)

  pub pq-accepted :
      (ca : KeysasPqKey) (ca_cert cert : X509) {subject : RdnSequence} {key : Bytes} {pem : Text}
      → PqVerifies c s ca
      → IsCertificateOf x ml_dsa87_oid ca.public_key ca_cert
      → PqIssues x c s ca subject key cert
      → c.from_pem pem ≡ some (seen x cert)
      → validate_signing_certificate c pem (some (seen x ca_cert)) ≡ ok (seen x cert)
  unfolding seen
  pq-accepted ca ca_cert cert (scheme, sound, verifies) (oid, key_is) (_, _, issue) parsed =
      let (content, sig, der, signed, bits) = issue in
      let (sig_ok, good) = verifies content sig signed in
      let (same, _) = kept _ _ key_is in
      let (_, whole) = kept _ _ bits in
      validate-ml_dsa87 c (seen x ca_cert) (seen x cert) sig content parsed oid scheme
        (ap c.pq_key same ∙ sound) whole sig_ok der
        (ap (λ k. c.pq_verify content sig k) same ∙ good)
