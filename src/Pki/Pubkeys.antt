-- ===== src/Pki/Pubkeys.antt =====
-- keysas_key.rs: the public keys of two certificate files, and signatures under them.
use keysas.Base.{
  ◌≡◌, refl, sym, Bool, true, Option, some, Text, Bytes, codes, length, ◌==◌, ==_iff, Result, ok,
  message, library, or_err, ensure, ◌>>=◌, ◌>>◌,
}
use mathlib.Core.Path.{subst}
use keysas.Signing.{Crypto}
use keysas.Firewall.{HybridPubKeys, verify_key_signatures}
use keysas.Pki.{CertificateFields}
use keysas.Pki.Tbs.{RdnSequence, X509, Encoding}
use keysas.Pki.Keys.{KeysasPqKey, Signer}
use keysas.Pki.Issue.{HybridKeyPair, Drawn, generate_signed_keypair}
use keysas.Pki.Chain.{KeepsBytes, EdVerifies, PqVerifies}
use keysas.Pki.Hybrid.{generate_signed_keypair-Issues}

raw_key : X509 → Bytes
raw_key cert = cert.tbs_certificate.subject_public_key_info.subject_public_key.raw_bytes

module _ (c : Crypto) (from_pem : Bytes → Option X509) where
  -- `File::open`, then `read_to_end`; both may fail.
  unfoldable pub get_pubkeys_from_certs :
      (Text → Option (Option Bytes)) → Text → Text → Result (Option HybridPubKeys)
  unfolding raw_key
  get_pubkeys_from_certs opened cert_cl cert_pq = do
    file_cl ←
        or_err (opened cert_cl)
          (message (codes "Cannot open Classic PEM certificate to get the public key"))
    cert_cl_bytes ← or_err file_cl (message (codes "Cannot read Classic certificate file."))
    file_pq ←
        or_err (opened cert_pq)
          (message (codes "Cannot open ML-DSA87 PEM certificate to get the public key"))
    cert_pq_bytes ← or_err file_pq (message (codes "Cannot read ML-DSA87 certificate file"))
    cl ← or_err (from_pem cert_cl_bytes) library
    pq ← or_err (from_pem cert_pq_bytes) library
    ensure (length (raw_key cl) == 32) (message (codes "Cannot copy from slice cert_cl_bytes"))
    ensure (c.ed_key (raw_key cl)) library
    ensure c.pq_scheme (message (codes "Cannot construct ML-DSA algorithm"))
    ensure (c.pq_key (raw_key pq))
        (message (codes "Cannot parse ML-DSA public key from certificate"))
    ok (some (record { classic = raw_key cl; pq = raw_key pq }))

  -- The two files hold certificates.
  abbrev pub Hold : (Text → Option (Option Bytes)) → Text → Text → X509 → X509 → Type 0
  Hold opened cert_cl cert_pq cl pq =
      (b_cl : Bytes) × (b_pq : Bytes) × (opened cert_cl ≡ some (some b_cl))
      × (opened cert_pq ≡ some (some b_pq))
      × (from_pem b_cl ≡ some cl)
      × (from_pem b_pq ≡ some pq)

  get_pubkeys-eq :
      (opened : Text → Option (Option Bytes)) (cert_cl cert_pq : Text) (cl pq : X509)
      (k_cl k_pq : Bytes)
      → Hold opened cert_cl cert_pq cl pq
      → raw_key cl ≡ k_cl
      → raw_key pq ≡ k_pq
      → length k_cl ≡ 32
      → c.ed_key k_cl ≡ true
      → c.pq_scheme ≡ true
      → c.pq_key k_pq ≡ true
      → get_pubkeys_from_certs opened cert_cl cert_pq
        ≡ ok (some (record { classic = k_cl; pq = k_pq }))
  unfolding get_pubkeys_from_certs
  get_pubkeys-eq opened cert_cl cert_pq cl pq k_cl k_pq (b_cl, b_pq, e1, e2, e3, e4) e5 e6 e7 e8 e9
        e10 =
      rw (e1, e2, e3, e4, e5, e6, (==_iff _ _).1 e7, e8, e9, e10) refl

  module _ (x : Encoding) (s : Signer) (kept : KeepsBytes x) where
    -- The public keys are read from the certificates of a key pair that another one signed, where its
    -- drawn keys are sound, and what both its keys sign verifies under them.
    pub get_pubkeys-verifies :
        (ca kp : HybridKeyPair) (drawn : Drawn) (subject : RdnSequence) (f : CertificateFields)
        (is_app : Bool) (opened : Text → Option (Option Bytes)) (cert_cl cert_pq : Text)
        (msg classic pq : Bytes)
        → EdVerifies c s drawn.classic
        → ((key : KeysasPqKey) → drawn.pq ≡ some key → PqVerifies c s key)
        → generate_signed_keypair x c s ca drawn subject f is_app ≡ ok kp
        → Hold opened cert_cl cert_pq kp.classic_cert kp.pq_cert
        → s.try_sign kp.classic msg ≡ some classic
        → s.pq_sign kp.pq msg ≡ some pq
        → (pubkeys : HybridPubKeys) × (get_pubkeys_from_certs opened cert_cl cert_pq
            ≡ ok (some pubkeys))
          × (verify_key_signatures c msg classic pq pubkeys ≡ ok tt)
    unfolding raw_key verify_key_signatures
    get_pubkeys-verifies ca kp drawn subject f is_app opened cert_cl cert_pq msg classic pq sound
          sound_pq made held s_cl s_pq =
        let (same, found, ((_, (_, k_cl), _), (_, (_, k_pq), _))) =
          generate_signed_keypair-Issues x c s kept ca drawn subject f is_app kp made in
        let (size, key_ok, verifies) = subst (EdVerifies c s) (sym same) sound in
        let (scheme, pq_ok, pq_verifies) = sound_pq kp.pq found in
        (
          record { classic = kp.classic.verifying_key; pq = kp.pq.public_key },
          get_pubkeys-eq opened cert_cl cert_pq kp.classic_cert kp.pq_cert _ _ held
              (kept _ _ k_cl).0 (kept _ _ k_pq).0 size key_ok scheme pq_ok,
          rw ((verifies msg classic s_cl).1, scheme, (pq_verifies msg pq s_pq).1) refl,
        )
