-- ===== src/Pki/Root.antt =====
-- keysas_hybrid_keypair.rs: the root key pair, and the key pairs that it signs.
use keysas.Base.{
  ◌≡◌, sym, ap, ◌∙◌, true, Option, some, Text, Bytes, Result, ok, err, or_err, >>=-eq-ok,
  or_err-eq-ok, ensure-eq-ok, ok-injective,
}
use mathlib.Core.Path.{subst}
use keysas.Signing.{Crypto, ed25519_oid, ml_dsa87_oid}
use keysas.Pki.{CertificateFields}
use keysas.Pki.Tbs.{RdnSequence, X509, CertReq, Encoding, generate_dn, construct_tbs_certificate}
use keysas.Pki.Keys.{SigningKey, KeysasPqKey, Signer, request_of, certificate_of}
use keysas.Pki.Issue.{with_context, generate_root_ed25519, generate_root_mldsa}
use keysas.Pki.Issued.{EdIssues, PqIssues, issued}

abbrev pub IsRequest : Encoding → Text → RdnSequence → Bytes → CertReq → Type 0
IsRequest x oid subject key csr =
    (csr.info.subject ≡ subject)
    × (csr.info.public_key.algorithm ≡ oid)
    × (x.bit_string key ≡ some csr.info.public_key.subject_public_key)

pub request_of-IsRequest :
    (x : Encoding) (sign : Bytes → Result Bytes) (oid : Text) (subject : RdnSequence) (key : Bytes)
    (csr : CertReq)
    → request_of x sign oid subject key ≡ ok csr
    → IsRequest x oid subject key csr
unfolding request_of
request_of-IsRequest x sign oid subject key csr e =
    let (bits, e1, f1) = >>=-eq-ok (or_err (x.bit_string key) _) _ e in
    let (content, e2, f2) = >>=-eq-ok (or_err (x.info_der _) _) _ f1 in
    let (sig, e3, f3) = >>=-eq-ok (sign content) _ f2 in
    let (signature, e4, f4) = >>=-eq-ok (or_err (x.bit_string sig) _) _ f3 in
    let same = ok-injective f4 in
    (
      sym (ap (λ t. t.info.subject) same),
      sym (ap (λ t. t.info.public_key.algorithm) same),
      or_err-eq-ok (x.bit_string key) _ e1
          ∙ ap (λ t. some t.info.public_key.subject_public_key) same,
    )

pub with_context-eq-ok {ℓ} :
    {T : Type ℓ} (first : Result T) (text : Text) {t : T}
    → with_context first text ≡ ok t
    → first ≡ ok t
with_context-eq-ok (err e) text h = absurd (cc h)
with_context-eq-ok (ok t) text h = h

module _ (x : Encoding) (c : Crypto) (s : Signer) where
  pub root_ed-Issues :
      (key : SigningKey) (infos : CertificateFields) (cert : X509)
      → generate_root_ed25519 x c s key infos ≡ ok cert
      → (subject : RdnSequence) × (generate_dn x infos ≡ ok subject)
        × EdIssues x c s key subject key.verifying_key cert
  unfolding generate_root_ed25519
  root_ed-Issues key infos cert e =
      let (_, e1) = ensure-eq-ok (x.oid_new ed25519_oid) _ _ e in
      let (subject, named, e2) = >>=-eq-ok (generate_dn x infos) _ e1 in
      let (tbs, made, signed) =
        >>=-eq-ok (construct_tbs_certificate x infos subject key.verifying_key _ _ true) _ e2 in
      let (a, b, (content, sig, e3, e4, e5)) =
        issued x infos subject key.verifying_key _ _ true tbs _ _ _ cert made signed in
      (subject, named, (a, b, (content, sig, e3, or_err-eq-ok (s.try_sign key content) _ e4, e5)))

  pub root_pq-Issues :
      (drawn : Option KeysasPqKey) (infos : CertificateFields) (key : KeysasPqKey) (cert : X509)
      → generate_root_mldsa x c s drawn infos ≡ ok (key, cert)
      → (drawn ≡ some key)
        × ((subject : RdnSequence) × (generate_dn x infos ≡ ok subject)
            × PqIssues x c s key subject key.public_key cert)
  unfolding generate_root_mldsa
  root_pq-Issues drawn infos key cert e =
      let (_, e1) = ensure-eq-ok c.pq_scheme _ _ e in
      let (k, e2, e3) = >>=-eq-ok (or_err drawn _) _ e1 in
      let (_, e4) = ensure-eq-ok (x.oid_new ml_dsa87_oid) _ _ e3 in
      let (subject, named, e5) = >>=-eq-ok (generate_dn x infos) _ e4 in
      let (tbs, made, e6) =
        >>=-eq-ok (construct_tbs_certificate x infos subject k.public_key _ _ true) _ e5 in
      let (crt, signed, e7) = >>=-eq-ok (certificate_of x _ _ _ _ tbs) _ e6 in
      let (a, b, (content, sig, e8, e9, e10)) =
        issued x infos subject k.public_key _ _ true tbs _ _ _ crt made signed in
      let same = ok-injective e7 in
      (
        or_err-eq-ok drawn _ e2 ∙ ap (λ p. some p.0) same,
        subst
            (λ p.
              (subject : RdnSequence) × (generate_dn x infos ≡ ok subject)
              × PqIssues x c s p.0 subject p.0.public_key p.1)
            same
            (
              subject,
              named,
              (a, b, (content, sig, e8, or_err-eq-ok (s.pq_sign k content) _ e9, e10)),
            ),
      )
