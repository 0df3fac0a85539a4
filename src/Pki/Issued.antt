-- ===== src/Pki/Issued.antt =====
-- keysas_key.rs and pki.rs: what an issued certificate says, and by whom it is signed.
use keysas.Base.{
  ◌≡◌, sym, ap, ◌∙◌, Bool, some, Text, Bytes, Result, Error, ok, or_err, >>=-eq-ok, or_err-eq-ok,
  ensure-eq-ok, ok-injective,
}
use keysas.Signing.{Crypto, ed25519_oid, ml_dsa87_oid}
use keysas.Pki.{CertificateFields}
use keysas.Pki.Tbs.{RdnSequence, TbsCertificate, X509, Encoding, construct_tbs_certificate}
use keysas.Pki.Keys.{
  SigningKey, KeysasPqKey, Signer, certificate_of, ed_signs, pq_signs, ed_generate_certificate,
  pq_generate_certificate,
}
use keysas.Pki.Bounds.{construct-parts}

-- The certificate is that of the key, under the name of the algorithm.
abbrev pub IsCertificateOf : Encoding → Text → Bytes → X509 → Type 0
IsCertificateOf x oid key cert =
    (cert.tbs_certificate.subject_public_key_info.algorithm ≡ oid)
    × (x.bit_string key ≡ some cert.tbs_certificate.subject_public_key_info.subject_public_key)

-- The signature of the certificate is what signing its signed part gave.
abbrev pub IsSignedWith : Encoding → (Bytes → Result Bytes) → X509 → Type 0
IsSignedWith x sign cert =
    (content : Bytes) × (sig : Bytes) × (x.tbs_der cert.tbs_certificate ≡ some content)
    × (sign content ≡ ok sig)
    × (x.bit_string sig ≡ some cert.signature)

pub certificate_of-parts :
    (x : Encoding) (sign : Bytes → Result Bytes) (oid : Text) (e1 e2 : Error) (tbs : TbsCertificate)
    (cert : X509)
    → certificate_of x sign oid e1 e2 tbs ≡ ok cert
    → (cert.tbs_certificate ≡ tbs) × IsSignedWith x sign cert
unfolding certificate_of
certificate_of-parts x sign oid d b tbs cert e =
    let (content, e1, f1) = >>=-eq-ok (or_err (x.tbs_der tbs) _) _ e in
    let (sig, e2, f2) = >>=-eq-ok (sign content) _ f1 in
    let (signature, e3, f3) = >>=-eq-ok (or_err (x.bit_string sig) _) _ f2 in
    let same = ok-injective f3 in
    let tbs_is = sym (ap (λ t. t.tbs_certificate) same) in
    (
      tbs_is,
      (
        content,
        sig,
        ap x.tbs_der tbs_is ∙ or_err-eq-ok (x.tbs_der tbs) _ e1,
        e2,
        or_err-eq-ok (x.bit_string sig) _ e3 ∙ ap (λ t. some t.signature) same,
      ),
    )

-- A signed part built for a key, then signed.
pub issued :
    (x : Encoding) (f : CertificateFields) (subject : RdnSequence) (key serial : Bytes) (oid : Text)
    (is_app : Bool) (tbs : TbsCertificate) (sign : Bytes → Result Bytes) (e1 e2 : Error)
    (cert : X509)
    → construct_tbs_certificate x f subject key serial oid is_app ≡ ok tbs
    → certificate_of x sign oid e1 e2 tbs ≡ ok cert
    → (cert.tbs_certificate.subject ≡ subject)
      × IsCertificateOf x oid key cert
      × IsSignedWith x sign cert
issued x f subject key serial oid is_app tbs sign d b cert made signed =
    let (tbs_is, by) = certificate_of-parts x sign oid d b tbs cert signed in
    let (subject_is, oid_is, key_is, _) =
      construct-parts x f subject key serial oid is_app tbs made in
    (
      ap (λ t. t.subject) tbs_is ∙ subject_is,
      (
        ap (λ t. t.subject_public_key_info.algorithm) tbs_is ∙ oid_is,
        key_is ∙ ap (λ t. some t.subject_public_key_info.subject_public_key) (sym tbs_is),
      ),
      by,
    )

module _ (x : Encoding) (c : Crypto) (s : Signer) where
  abbrev pub EdIssues : SigningKey → RdnSequence → Bytes → X509 → Type 0
  EdIssues ca subject key cert =
      (cert.tbs_certificate.subject ≡ subject)
      × IsCertificateOf x ed25519_oid key cert
      × ((content : Bytes) × (sig : Bytes) × (x.tbs_der cert.tbs_certificate ≡ some content)
          × (s.try_sign ca content ≡ some sig)
          × (x.bit_string sig ≡ some cert.signature))

  abbrev pub PqIssues : KeysasPqKey → RdnSequence → Bytes → X509 → Type 0
  PqIssues ca subject key cert =
      (cert.tbs_certificate.subject ≡ subject)
      × IsCertificateOf x ml_dsa87_oid key cert
      × ((content : Bytes) × (sig : Bytes) × (x.tbs_der cert.tbs_certificate ≡ some content)
          × (s.pq_sign ca content ≡ some sig)
          × (x.bit_string sig ≡ some cert.signature))

  pub ed_generate_certificate-Issues :
      (ca : SigningKey) (f : CertificateFields) (subject : RdnSequence) (key serial : Bytes)
      (is_app : Bool) (cert : X509)
      → ed_generate_certificate x c s ca f subject key serial is_app ≡ ok cert
      → EdIssues ca subject key cert
  unfolding ed_generate_certificate ed_signs
  ed_generate_certificate-Issues ca f subject key serial is_app cert e =
      let (_, e1) = ensure-eq-ok (x.oid_new ed25519_oid) _ _ e in
      let (tbs, made, signed) =
        >>=-eq-ok (construct_tbs_certificate x f subject key serial ed25519_oid is_app) _ e1 in
      let (a, b, (content, sig, e2, e3, e4)) =
        issued x f subject key serial ed25519_oid is_app tbs _ _ _ cert made signed in
      (a, b, (content, sig, e2, or_err-eq-ok (s.try_sign ca content) _ e3, e4))

  pub pq_generate_certificate-Issues :
      (ca : KeysasPqKey) (f : CertificateFields) (subject : RdnSequence) (key serial : Bytes)
      (is_app : Bool) (cert : X509)
      → pq_generate_certificate x c s ca f subject key serial is_app ≡ ok cert
      → PqIssues ca subject key cert
  unfolding pq_generate_certificate pq_signs
  pq_generate_certificate-Issues ca f subject key serial is_app cert e =
      let (_, e1) = ensure-eq-ok (x.oid_new ml_dsa87_oid) _ _ e in
      let (tbs, made, signed) =
        >>=-eq-ok (construct_tbs_certificate x f subject key serial ml_dsa87_oid is_app) _ e1 in
      let (a, b, (content, sig, e2, e3, e4)) =
        issued x f subject key serial ml_dsa87_oid is_app tbs _ _ _ cert made signed in
      let (_, e5) = ensure-eq-ok c.pq_scheme _ _ e3 in
      (a, b, (content, sig, e2, or_err-eq-ok (s.pq_sign ca content) _ e5, e4))
