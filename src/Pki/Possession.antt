-- ===== src/Pki/Possession.antt =====
-- pki.rs: requests and the certificates that are issued for them.
use keysas.Base.{
  ◌≡◌, refl, Bool, true, false, some, Bytes, codes, length, ◌==◌, text_eq, text_eq_iff, Bool-cases,
  ◌⊎◌, inl, inr, ok, err, message, or_err, >>=-eq-ok, or_err-eq-ok, ensure-eq-ok,
}
use keysas.Signing.{Crypto, ed25519_oid, ml_dsa87_oid}
use keysas.Pki.{CertificateFields}
use keysas.Pki.Tbs.{X509, CertReq, Encoding}
use keysas.Pki.Keys.{Signer}
use keysas.Pki.Issue.{
  HybridKeyPair, cert_from_ed_csr, cert_from_pq_csr, cert_by_algorithm, generate_cert_from_csr,
}
use keysas.Pki.Issued.{
  EdIssues, PqIssues, ed_generate_certificate-Issues, pq_generate_certificate-Issues,
}

module _ (x : Encoding) (c : Crypto) (s : Signer) where
  -- The request's own signature verifies under the key that it carries, and the authority's key of the
  -- same algorithm issued the certificate.
  abbrev pub EdHolds : HybridKeyPair → CertReq → Bytes → X509 → Type 0
  EdHolds ca csr key cert =
      (csr.info.public_key.algorithm ≡ ed25519_oid)
      × ((der : Bytes) × (x.info_der csr.info ≡ some der)
          × (c.ed_verify key der csr.signature.raw_bytes ≡ true))
      × EdIssues x c s ca.classic csr.info.subject key cert

  abbrev pub PqHolds : HybridKeyPair → CertReq → Bytes → X509 → Type 0
  PqHolds ca csr key cert =
      (csr.info.public_key.algorithm ≡ ml_dsa87_oid)
      × ((der : Bytes) × (x.info_der csr.info ≡ some der)
          × (c.pq_verify der csr.signature.raw_bytes key ≡ true))
      × PqIssues x c s ca.pq csr.info.subject key cert

  abbrev pub IsHolder : HybridKeyPair → CertReq → X509 → Type 0
  IsHolder ca csr cert =
      (key : Bytes) × (csr.info.public_key.subject_public_key.as_bytes ≡ some key)
      × (EdHolds ca csr key cert ⊎ PqHolds ca csr key cert)

  module _ (ca : HybridKeyPair) (csr : CertReq) (f : CertificateFields) (serial : Bytes)
      (is_app : Bool) (cert : X509) where
    from_ed :
        (key : Bytes)
        → csr.info.public_key.algorithm ≡ ed25519_oid
        → cert_from_ed_csr x c s ca.classic csr f key serial is_app ≡ ok cert
        → EdHolds ca csr key cert
    unfolding cert_from_ed_csr
    from_ed key oid e =
        let (_, e1) = ensure-eq-ok (length key == 32) _ _ e in
        let (_, e2) = ensure-eq-ok (c.ed_key key) _ _ e1 in
        let (_, e3) = ensure-eq-ok (length csr.signature.raw_bytes == 64) _ _ e2 in
        let (der, e4, e5) = >>=-eq-ok (or_err (x.info_der csr.info) _) _ e3 in
        let (signed, e6) = ensure-eq-ok (c.ed_verify key der csr.signature.raw_bytes) _ _ e5 in
        (
          oid,
          (der, or_err-eq-ok (x.info_der csr.info) _ e4, signed),
          ed_generate_certificate-Issues x c s ca.classic f csr.info.subject key serial is_app cert
              e6,
        )

    from_pq :
        (key : Bytes)
        → csr.info.public_key.algorithm ≡ ml_dsa87_oid
        → cert_from_pq_csr x c s ca.pq csr f key serial is_app ≡ ok cert
        → PqHolds ca csr key cert
    unfolding cert_from_pq_csr
    from_pq key oid e =
        let (_, e1) = ensure-eq-ok c.pq_scheme _ _ e in
        let (der, e2, e3) = >>=-eq-ok (or_err (x.info_der csr.info) _) _ e1 in
        let (_, e4) = ensure-eq-ok (c.pq_signature csr.signature.raw_bytes) _ _ e3 in
        let (_, e5) = ensure-eq-ok (c.pq_key key) _ _ e4 in
        let (signed, e6) = ensure-eq-ok (c.pq_verify der csr.signature.raw_bytes key) _ _ e5 in
        (
          oid,
          (der, or_err-eq-ok (x.info_der csr.info) _ e2, signed),
          pq_generate_certificate-Issues x c s ca.pq f csr.info.subject key serial is_app cert e6,
        )

    refusal :
        (key : Bytes)
        → text_eq csr.info.public_key.algorithm ed25519_oid ≡ false
        → text_eq csr.info.public_key.algorithm ml_dsa87_oid ≡ false
        → cert_by_algorithm x c s ca.classic ca.pq csr f key serial is_app
          ≡ err (message (codes "Invalid algorithm OID"))
    unfolding cert_by_algorithm
    refusal key other neither = rw (other, neither) refl

    by_algorithm :
        (key : Bytes)
        → cert_by_algorithm x c s ca.classic ca.pq csr f key serial is_app ≡ ok cert
        → EdHolds ca csr key cert ⊎ PqHolds ca csr key cert
    by_algorithm key e = elim (Bool-cases (text_eq csr.info.public_key.algorithm ed25519_oid)) [
      | inl is ↦ inl (from_ed key ((text_eq_iff _ _).0 is) (unfold cert_by_algorithm in rw is at e))
      | inr other ↦ elim (Bool-cases (text_eq csr.info.public_key.algorithm ml_dsa87_oid)) [
        | inl is ↦
            inr (
              from_pq key ((text_eq_iff _ _).0 is)
                (unfold cert_by_algorithm in rw (other, is) at e))
        | inr neither ↦ absurd (cc (refusal key other neither, e))
      ]
    ]

    -- A certificate is issued only for a request whose signature verifies, over the encoding of its
    -- content, under the public key that it carries. The certificate names the subject and the key of
    -- the request, and is signed by the authority's key of the algorithm that the request names.
    pub generate_cert_from_csr-IsHolder :
        generate_cert_from_csr x c s ca csr f serial is_app ≡ ok cert → IsHolder ca csr cert
    unfolding generate_cert_from_csr
    generate_cert_from_csr-IsHolder e =
        let bits = csr.info.public_key.subject_public_key.as_bytes in
        let (key, e1, e2) = >>=-eq-ok (or_err bits _) _ e in
        let (_, e3) = ensure-eq-ok (x.oid_new ml_dsa87_oid) _ _ e2 in
        let (_, e4) = ensure-eq-ok (x.oid_new ed25519_oid) _ _ e3 in
        (key, or_err-eq-ok bits _ e1, by_algorithm key e4)
