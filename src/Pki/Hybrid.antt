-- ===== src/Pki/Hybrid.antt =====
-- keysas_hybrid_keypair.rs: a root, the key pairs that it signs, and the validation of their certificates.
use keysas.Base.{
  ◌≡◌, refl, sym, ◌∙◌, Bool, some, Text, Bytes, text_eq_iff, clash, ok, or_err, inl, inr, >>=-eq-ok,
  or_err-eq-ok, ensure-eq-ok, ok-injective,
}
use mathlib.Core.Path.{subst}
use keysas.Signing.{Crypto, ed25519_oid, ml_dsa87_oid, validate_signing_certificate}
use keysas.Signing.Accept.{other}
use keysas.Pki.{CertificateFields}
use keysas.Pki.Tbs.{RdnSequence, X509, CertReq, Encoding, seen, generate_dn}
use keysas.Pki.Keys.{KeysasPqKey, Signer, ed_generate_csr, pq_generate_csr}
use keysas.Pki.Issue.{
  HybridKeyPair, Drawn, with_context, generate_cert_from_csr, generate_root_ed25519,
  generate_root_mldsa, generate_root, generate_signed_keypair,
}
use keysas.Pki.Issued.{EdIssues, PqIssues}
use keysas.Pki.Possession.{generate_cert_from_csr-IsHolder}
use keysas.Pki.Chain.{KeepsBytes, EdVerifies, PqVerifies, ed-accepted, pq-accepted}
use keysas.Pki.Root.{
  IsRequest, request_of-IsRequest, with_context-eq-ok, root_ed-Issues, root_pq-Issues,
}

module _ (x : Encoding) (c : Crypto) (s : Signer) where
  -- The two certificates of a pair are those of its keys, issued by another pair.
  abbrev pub Issues : HybridKeyPair → RdnSequence → HybridKeyPair → Type 0
  Issues ca subject kp =
      EdIssues x c s ca.classic subject kp.classic.verifying_key kp.classic_cert
      × PqIssues x c s ca.pq subject kp.pq.public_key kp.pq_cert

  -- The certificates of a root are those of its own keys, for the name of its fields, and signed by
  -- them. Its keys are the ones that were drawn.
  pub generate_root-Issues :
      (drawn : Drawn) (infos : CertificateFields) (root : HybridKeyPair)
      → generate_root x c s drawn infos ≡ ok root
      → (root.classic ≡ drawn.classic)
        × (drawn.pq ≡ some root.pq)
        × ((subject : RdnSequence) × (generate_dn x infos ≡ ok subject) × Issues root subject root)
  unfolding generate_root
  generate_root-Issues drawn infos root e =
      let ed = generate_root_ed25519 x c s drawn.classic infos in
      let pq = generate_root_mldsa x c s drawn.pq infos in
      let (cert_ed, e1, e2) = >>=-eq-ok (with_context ed _) _ e in
      let ((key, cert_dl), e3, e4) = >>=-eq-ok (with_context pq _) _ e2 in
      let (subject, named, by_ed) =
        root_ed-Issues x c s drawn.classic infos cert_ed (with_context-eq-ok ed _ e1) in
      let (key_is, (again, renamed, by_pq)) =
        root_pq-Issues x c s drawn.pq infos key cert_dl (with_context-eq-ok pq _ e3) in
      let one = ok-injective (sym renamed ∙ named) in
      subst
        (λ r.
          (r.classic ≡ drawn.classic)
          × (drawn.pq ≡ some r.pq)
          × ((n : RdnSequence) × (generate_dn x infos ≡ ok n) × Issues r n r))
        (ok-injective e4)
        (
          refl,
          key_is,
          (
            subject,
            named,
            (by_ed, subst (λ n. PqIssues x c s key n key.public_key cert_dl) one by_pq),
          ),
        )

  module _ (kept : KeepsBytes x) where
    csr_ed-Issues :
        (ca : HybridKeyPair) (csr : CertReq) (f : CertificateFields) (serial key : Bytes)
        (is_app : Bool) (subject : RdnSequence) (cert : X509)
        → IsRequest x ed25519_oid subject key csr
        → generate_cert_from_csr x c s ca csr f serial is_app ≡ ok cert
        → EdIssues x c s ca.classic subject key cert
    csr_ed-Issues ca csr f serial key is_app subject cert (named, oid, bits) e =
        let (k, carried, held) =
          generate_cert_from_csr-IsHolder x c s ca csr f serial is_app cert e in
        let same : k ≡ key = cc (carried, (kept _ _ bits).1) in
        elim held [
          | inl (_, _, by_ed) ↦
              subst (λ n. EdIssues x c s ca.classic n key cert) named
                (subst (λ n. EdIssues x c s ca.classic csr.info.subject n cert) same by_ed)
          | inr (pq, _, _) ↦ absurd (clash other ((text_eq_iff _ _).1 (sym pq ∙ oid)))
        ]

    csr_pq-Issues :
        (ca : HybridKeyPair) (csr : CertReq) (f : CertificateFields) (serial key : Bytes)
        (is_app : Bool) (subject : RdnSequence) (cert : X509)
        → IsRequest x ml_dsa87_oid subject key csr
        → generate_cert_from_csr x c s ca csr f serial is_app ≡ ok cert
        → PqIssues x c s ca.pq subject key cert
    csr_pq-Issues ca csr f serial key is_app subject cert (named, oid, bits) e =
        let (k, carried, held) =
          generate_cert_from_csr-IsHolder x c s ca csr f serial is_app cert e in
        let same : k ≡ key = cc (carried, (kept _ _ bits).1) in
        elim held [
          | inl (ed, _, _) ↦ absurd (clash other ((text_eq_iff _ _).1 (sym oid ∙ ed)))
          | inr (_, _, by_pq) ↦
              subst (λ n. PqIssues x c s ca.pq n key cert) named
                (subst (λ n. PqIssues x c s ca.pq csr.info.subject n cert) same by_pq)
        ]

    -- The certificates of a key pair that another one signs are those of the drawn keys, for the name
    -- asked for, and are signed by that other pair's keys.
    pub generate_signed_keypair-Issues :
        (ca : HybridKeyPair) (drawn : Drawn) (subject : RdnSequence) (f : CertificateFields)
        (is_app : Bool) (kp : HybridKeyPair)
        → generate_signed_keypair x c s ca drawn subject f is_app ≡ ok kp
        → (kp.classic ≡ drawn.classic) × (drawn.pq ≡ some kp.pq) × Issues ca subject kp
    unfolding generate_signed_keypair ed_generate_csr pq_generate_csr
    generate_signed_keypair-Issues ca drawn subject f is_app kp e =
        let (csr_ed, e1, f1) = >>=-eq-ok (ed_generate_csr x c s drawn.classic subject) _ e in
        let (cert_ed, e2, f2) =
          >>=-eq-ok (generate_cert_from_csr x c s ca csr_ed f _ is_app) _ f1 in
        let (_, f3) = ensure-eq-ok c.pq_scheme _ _ f2 in
        let (key, e4, f4) = >>=-eq-ok (or_err drawn.pq _) _ f3 in
        let (csr_pq, e5, f5) = >>=-eq-ok (pq_generate_csr x c s key subject) _ f4 in
        let (cert_pq, e6, f6) =
          >>=-eq-ok (generate_cert_from_csr x c s ca csr_pq f _ is_app) _ f5 in
        let asked_ed =
          request_of-IsRequest x _ ed25519_oid subject drawn.classic.verifying_key csr_ed
            (ensure-eq-ok (x.oid_new ed25519_oid) _ _ e1).1 in
        let asked_pq =
          request_of-IsRequest x _ ml_dsa87_oid subject key.public_key csr_pq
            (ensure-eq-ok (x.oid_new ml_dsa87_oid) _ _ e5).1 in
        subst (λ r. (r.classic ≡ drawn.classic) × (drawn.pq ≡ some r.pq) × Issues ca subject r)
          (ok-injective f6)
          (
            refl,
            or_err-eq-ok drawn.pq _ e4,
            (
              csr_ed-Issues ca csr_ed f _ _ is_app subject cert_ed asked_ed e2,
              csr_pq-Issues ca csr_pq f _ _ is_app subject cert_pq asked_pq e6,
            ),
          )

    -- Where the drawn keys of the root are sound, the two certificates of every key pair that the root
    -- signs are accepted by `validate_signing_certificate` under the two certificates of the root.
    pub generate_signed_keypair-accepted :
        (drawn drawn' : Drawn) (infos f : CertificateFields) (root kp : HybridKeyPair)
        (subject : RdnSequence) (is_app : Bool) (pem_cl pem_pq : Text)
        → EdVerifies c s drawn.classic
        → ((key : KeysasPqKey) → drawn.pq ≡ some key → PqVerifies c s key)
        → generate_root x c s drawn infos ≡ ok root
        → generate_signed_keypair x c s root drawn' subject f is_app ≡ ok kp
        → c.from_pem pem_cl ≡ some (seen x kp.classic_cert)
        → c.from_pem pem_pq ≡ some (seen x kp.pq_cert)
        → (validate_signing_certificate c pem_cl (some (seen x root.classic_cert))
            ≡ ok (seen x kp.classic_cert))
          × (validate_signing_certificate c pem_pq (some (seen x root.pq_cert))
              ≡ ok (seen x kp.pq_cert))
    generate_signed_keypair-accepted drawn drawn' infos f root kp subject is_app pem_cl pem_pq sound
          sound_pq made signed p1 p2 =
        let (classic, pq, (_, _, ((_, own_ed, _), (_, own_pq, _)))) =
          generate_root-Issues drawn infos root made in
        let (_, _, (by_ed, by_pq)) =
          generate_signed_keypair-Issues root drawn' subject f is_app kp signed in
        (
          ed-accepted x c s kept root.classic root.classic_cert kp.classic_cert
              (subst (EdVerifies c s) (sym classic) sound) own_ed by_ed p1,
          pq-accepted x c s kept root.pq root.pq_cert kp.pq_cert (sound_pq root.pq pq) own_pq by_pq
              p2,
        )
