-- ===== src/Signing/Validate.antt =====
-- certificate_field.rs: what an accepted certificate has passed.
use keysas.Base.{
  ◌≡◌, sym, ap, ◌∙◌, Option-cases, Bool-cases, true, some, Text, Bytes, length, ◌⊎◌, inl, inr, ok,
  text_eq, text_eq_iff, ==_iff, arith,
}
use mathlib.Core.Path.{subst}
use keysas.Signing.{
  Certificate, Crypto, ed25519_oid, ml_dsa87_oid, validate_ed25519, validate_ml_dsa87,
  validate_with_ca, validate_signing_certificate,
}

-- The signature of `cert` verifies under the key of `ca`, by the algorithm that `ca` names.
abbrev pub Verifies : Crypto → Certificate → Bytes → Bytes → Type 0
Verifies c ca der sig =
    ((ca.oid ≡ ed25519_oid) × (length sig ≡ 64) × (c.ed_verify ca.public_key der sig ≡ true))
    ⊎ ((ca.oid ≡ ml_dsa87_oid) × (c.pq_verify der sig ca.public_key ≡ true))

abbrev pub IsSignedBy : Crypto → Certificate → Certificate → Type 0
IsSignedBy c ca cert =
    (der : Bytes) × (sig : Bytes) × (cert.tbs_der ≡ some der)
    × (cert.signature ≡ some sig)
    × Verifies c ca der sig

ed25519-IsSignedBy :
    (c : Crypto) (ca cert out : Certificate)
    → ca.oid ≡ ed25519_oid
    → validate_ed25519 c ca cert ≡ ok out
    → (out ≡ cert) × IsSignedBy c ca cert
unfolding validate_ed25519
ed25519-IsSignedBy c ca cert out o h = elim (Option-cases cert.signature) [
  | inl e ↦ ground arith
  | inr (sig, es) ↦ elim (Option-cases cert.tbs_der) [
    | inl e ↦ ground arith
    | inr (der, ed) ↦ (
      ground arith,
      (der, sig, ed, es, inl (o, ground (arith, ==_iff (length sig) 64), ground arith)),
    )
  ]
]

ml_dsa87-IsSignedBy :
    (c : Crypto) (ca cert out : Certificate)
    → ca.oid ≡ ml_dsa87_oid
    → validate_ml_dsa87 c ca cert ≡ ok out
    → (out ≡ cert) × IsSignedBy c ca cert
unfolding validate_ml_dsa87
ml_dsa87-IsSignedBy c ca cert out o h = elim (Option-cases cert.signature) [
  | inl e ↦ ground arith
  | inr (sig, es) ↦ elim (Option-cases cert.tbs_der) [
    | inl e ↦ ground arith
    | inr (der, ed) ↦ (ground arith, (der, sig, ed, es, inr (o, ground arith)))
  ]
]

with_ca-IsSignedBy :
    (c : Crypto) (ca cert out : Certificate)
    → validate_with_ca c ca cert ≡ ok out
    → (out ≡ cert) × IsSignedBy c ca cert
with_ca-IsSignedBy c ca cert out h = elim (Bool-cases (text_eq ca.oid ed25519_oid)) [
  | inl e ↦
      ed25519-IsSignedBy c ca cert out ((text_eq_iff _ _).0 e)
        (unfold validate_with_ca in rw e at h)
  | inr n ↦ elim (Bool-cases (text_eq ca.oid ml_dsa87_oid)) [
    | inl e ↦
        ml_dsa87-IsSignedBy c ca cert out ((text_eq_iff _ _).0 e)
          (unfold validate_with_ca in rw (n, e) at h)
    | inr m ↦ unfold validate_with_ca in ground arith
  ]
]

pub validate-some :
    (c : Crypto) {pem : Text} (ca : Certificate) {parsed : Certificate}
    → c.from_pem pem ≡ some parsed
    → validate_signing_certificate c pem (some ca) ≡ validate_with_ca c ca parsed
unfolding validate_signing_certificate
validate-some c ca e = rw e

-- With an authority given, a certificate is accepted only if it is the one that the text parses to,
-- its signed part and its signature are there, and the signature verifies under the authority's key,
-- by Ed25519 or ML-DSA-87 as the authority's key says.
pub validate-IsSignedBy :
    (c : Crypto) (pem : Text) (ca cert : Certificate)
    → validate_signing_certificate c pem (some ca) ≡ ok cert
    → (c.from_pem pem ≡ some cert) × IsSignedBy c ca cert
validate-IsSignedBy c pem ca cert h = elim (Option-cases (c.from_pem pem)) [
  | inl e ↦ unfold validate_signing_certificate in ground arith
  | inr (parsed, e) ↦
      let (same, signed) = with_ca-IsSignedBy c ca parsed cert (sym (validate-some c ca e) ∙ h) in
      (e ∙ ap some (sym same), subst (IsSignedBy c ca) (sym same) signed)
]
