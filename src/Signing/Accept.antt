-- ===== src/Signing/Accept.antt =====
-- certificate_field.rs: validation of a certificate with a sound signature.
use keysas.Base.{
  ◌≡◌, refl, ap, ◌∙◌, true, false, some, Text, Bytes, length, ==_iff, text_eq, text_eq_iff, ok,
}
use keysas.Signing.{
  Certificate, Crypto, ed25519_oid, ml_dsa87_oid, validate_ed25519, validate_ml_dsa87,
  validate_with_ca, validate_signing_certificate,
}
use keysas.Signing.Validate.{validate-some}

pub other : text_eq ml_dsa87_oid ed25519_oid ≡ false
unfolding text_eq
other = refl

module _ (c : Crypto) where
  validate_ed25519-eq :
      (ca cert : Certificate) (sig der : Bytes)
      → length ca.public_key ≡ 32
      → c.ed_key ca.public_key ≡ true
      → cert.signature ≡ some sig
      → length sig ≡ 64
      → cert.tbs_der ≡ some der
      → c.ed_verify ca.public_key der sig ≡ true
      → validate_ed25519 c ca cert ≡ ok cert
  unfolding validate_ed25519
  validate_ed25519-eq ca cert sig der e1 e2 e3 e4 e5 e6 =
      rw ((==_iff _ _).1 e1, e2, e3, (==_iff _ _).1 e4, e5, e6) refl

  validate_ml_dsa87-eq :
      (ca cert : Certificate) (sig der : Bytes)
      → c.pq_scheme ≡ true
      → c.pq_key ca.public_key ≡ true
      → cert.signature ≡ some sig
      → c.pq_signature sig ≡ true
      → cert.tbs_der ≡ some der
      → c.pq_verify der sig ca.public_key ≡ true
      → validate_ml_dsa87 c ca cert ≡ ok cert
  unfolding validate_ml_dsa87
  validate_ml_dsa87-eq ca cert sig der e1 e2 e3 e4 e5 e6 = rw (e1, e2, e3, e4, e5, e6) refl

  pub validate-ed25519 :
      {pem : Text} (ca cert : Certificate) (sig der : Bytes)
      → c.from_pem pem ≡ some cert
      → ca.oid ≡ ed25519_oid
      → length ca.public_key ≡ 32
      → c.ed_key ca.public_key ≡ true
      → cert.signature ≡ some sig
      → length sig ≡ 64
      → cert.tbs_der ≡ some der
      → c.ed_verify ca.public_key der sig ≡ true
      → validate_signing_certificate c pem (some ca) ≡ ok cert
  validate-ed25519 ca cert sig der p o e1 e2 e3 e4 e5 e6 =
      validate-some c ca p
      ∙ (unfold validate_with_ca in
          rw ((text_eq_iff ca.oid ed25519_oid).1 o)
            (validate_ed25519-eq ca cert sig der e1 e2 e3 e4 e5 e6))

  pub validate-ml_dsa87 :
      {pem : Text} (ca cert : Certificate) (sig der : Bytes)
      → c.from_pem pem ≡ some cert
      → ca.oid ≡ ml_dsa87_oid
      → c.pq_scheme ≡ true
      → c.pq_key ca.public_key ≡ true
      → cert.signature ≡ some sig
      → c.pq_signature sig ≡ true
      → cert.tbs_der ≡ some der
      → c.pq_verify der sig ca.public_key ≡ true
      → validate_signing_certificate c pem (some ca) ≡ ok cert
  validate-ml_dsa87 ca cert sig der p o e1 e2 e3 e4 e5 e6 =
      validate-some c ca p
      ∙ (unfold validate_with_ca in
          rw (ap (λ n. text_eq n ed25519_oid) o ∙ other, (text_eq_iff ca.oid ml_dsa87_oid).1 o)
            (validate_ml_dsa87-eq ca cert sig der e1 e2 e3 e4 e5 e6))
