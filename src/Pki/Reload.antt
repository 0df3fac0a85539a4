-- ===== src/Pki/Reload.antt =====
-- keysas_hybrid_keypair.rs: saving a key pair, then loading it.
use keysas.Base.{
  ◌≡◌, refl, ◌∙◌, true, some, Text, Bytes, codes, utf8, push, ◌++◌, length, ==_iff, ok, or_err,
  >>=-eq-ok, or_err-eq-ok, ensure-eq-ok,
}
use keysas.Signing.{Crypto, ed25519_oid, ml_dsa87_oid}
use keysas.Pki.Tbs.{X509, Encoding}
use keysas.Pki.Keys.{SigningKey, KeysasPqKey}
use keysas.Pki.Issue.{HybridKeyPair}
use keysas.Pki.Store.{
  PrivateKeyInfo, Pkcs8, Disk, Files, write_file, read_file, store_keypair, load_info, ed_save_keys,
  ed_load_keys, pq_save_keys, pq_load_keys, save, load_cert, load,
}
use keysas.Pki.Written.{cl_key, pq_key, cl_cert, pq_cert, FourFiles, four_writes, read_file_cong}

-- Decryption under the password of an encryption gives what was encrypted.
abbrev pub Decrypts : Pkcs8 → PrivateKeyInfo → Text → Type 0
Decrypts k info pwd =
    (params : Bytes) (cipher : Bytes)
    → k.encrypt info params pwd ≡ some cipher
    → (enc : Bytes) × (pk : Bytes) × (k.try_from cipher ≡ some enc)
      × (k.decrypt enc pwd ≡ some pk)
      × (k.decode_msg pk ≡ some info)

-- A certificate is read back from the text that it is written as.
abbrev pub ReadsBack : Pkcs8 → X509 → Type 0
ReadsBack k cert =
    (pem : Text)
    → k.to_pem cert ≡ some pem
    → (k.from_utf8 (utf8 pem) ≡ some pem) × (k.from_pem pem ≡ some cert)

abbrev pub ed_info : SigningKey → PrivateKeyInfo
ed_info key = record {
  oid = ed25519_oid;
  private_key = key.secret;
  public_key = some key.verifying_key;
}

abbrev pub pq_info : KeysasPqKey → PrivateKeyInfo
pq_info key = record {
  oid = ml_dsa87_oid;
  private_key = key.private_key;
  public_key = some key.public_key;
}

-- The keys are keys.
abbrev pub AreKeys : Crypto → Pkcs8 → HybridKeyPair → Type 0
AreKeys c k kp =
    (length kp.classic.secret ≡ 32)
    × (k.from_bytes kp.classic.secret ≡ kp.classic)
    × (c.pq_scheme ≡ true)
    × (k.pq_secret kp.pq.private_key ≡ true)
    × (c.pq_key kp.pq.public_key ≡ true)

-- `load` looks at `pki_dir`, a dot and the directory that it is given.
abbrev pub dotted : Text → Text → Text
dotted pki_dir dir = push pki_dir (codes "." ++ dir)

-- The paths that `load` reads lead to the files that `save` wrote.
abbrev pub Finds : Disk → Text → Text → Text → Text → Text → Type 0
Finds d from_keys from_certs keys certs name =
    (d.resolve (cl_key from_keys name) ≡ d.resolve (cl_key keys name))
    × (d.resolve (pq_key from_keys name) ≡ d.resolve (pq_key keys name))
    × (d.resolve (cl_cert from_certs name) ≡ d.resolve (cl_cert certs name))
    × (d.resolve (pq_cert from_certs name) ≡ d.resolve (pq_cert certs name))

module _ (d : Disk) (x : Encoding) (c : Crypto) (k : Pkcs8) where
  stored :
      (salt iv prk pbk : Bytes) (oid pwd path : Text) (files after : Files)
      → store_keypair x c k d salt iv prk pbk oid pwd path files ≡ ok after
      → (params : Bytes) × (cipher : Bytes) × (k.encrypt
            (record { oid = oid; private_key = prk; public_key = some pbk })
            params
            pwd
          ≡ some cipher)
        × (write_file d path cipher files ≡ ok after)
  unfolding store_keypair
  stored salt iv prk pbk oid pwd path files after e =
      let (params, _, e1) = >>=-eq-ok (or_err (k.scrypt salt iv) _) _ e in
      let (cipher, e2, e3) = >>=-eq-ok (or_err (k.encrypt _ params pwd) _) _ e1 in
      (params, cipher, or_err-eq-ok (k.encrypt _ params pwd) _ e2, e3)

  load_info-eq :
      (path pwd : Text) (files : Files) (info : PrivateKeyInfo) (params cipher : Bytes)
      → Decrypts k info pwd
      → k.encrypt info params pwd ≡ some cipher
      → read_file d path files ≡ some cipher
      → load_info x c k d path pwd files ≡ ok info
  unfolding load_info
  load_info-eq path pwd files info params cipher undone e there =
      let (enc, pk, e1, e2, e3) = undone params cipher e in rw (there, e1, e2, e3) refl

  ed_load_keys-eq :
      (key : SigningKey) (path pwd : Text) (files : Files) (params cipher : Bytes)
      → Decrypts k (ed_info key) pwd
      → length key.secret ≡ 32
      → k.from_bytes key.secret ≡ key
      → k.encrypt (ed_info key) params pwd ≡ some cipher
      → read_file d path files ≡ some cipher
      → ed_load_keys x c k d path pwd files ≡ ok key
  unfolding ed_load_keys
  ed_load_keys-eq key path pwd files params cipher undone size same e there =
      rw (load_info-eq path pwd files _ params cipher undone e there, (==_iff _ _).1 size, same)
        refl

  pq_load_keys-eq :
      (key : KeysasPqKey) (path pwd : Text) (files : Files) (params cipher : Bytes)
      → Decrypts k (pq_info key) pwd
      → c.pq_scheme ≡ true
      → k.pq_secret key.private_key ≡ true
      → c.pq_key key.public_key ≡ true
      → k.encrypt (pq_info key) params pwd ≡ some cipher
      → read_file d path files ≡ some cipher
      → pq_load_keys x c k d path pwd files ≡ ok key
  unfolding pq_load_keys
  pq_load_keys-eq key path pwd files params cipher undone e1 e2 e3 e there =
      rw (load_info-eq path pwd files _ params cipher undone e there, e1, e2, e3) refl

  load_cert-eq :
      (cert : X509) (pem path : Text) (files : Files)
      → ReadsBack k cert
      → k.to_pem cert ≡ some pem
      → read_file d path files ≡ some (utf8 pem)
      → load_cert x c k d path files ≡ ok cert
  unfolding load_cert
  load_cert-eq cert pem path files back e there =
      let (e1, e2) = back pem e in rw (there, e1, e2) refl

  -- A pair that was saved is loaded again under the same name and password, where its keys are keys,
  -- its four files are distinct and those that `load` looks for, decryption undoes the encryption of
  -- its keys and its certificates are read back from their texts.
  pub load-save :
      (salt_cl iv_cl salt_pq iv_pq : Bytes) (kp : HybridKeyPair)
      (name keys certs from_keys from_certs pki_dir pwd : Text) (files after : Files)
      → AreKeys c k kp
      → Decrypts k (ed_info kp.classic) pwd × Decrypts k (pq_info kp.pq) pwd
      → ReadsBack k kp.classic_cert × ReadsBack k kp.pq_cert
      → FourFiles d keys certs name
      → Finds d (dotted pki_dir from_keys) (dotted pki_dir from_certs) keys certs name
      → save x c k d salt_cl iv_cl salt_pq iv_pq kp name keys certs pwd files ≡ ok after
      → load x c k d name from_keys from_certs pki_dir pwd after ≡ ok kp
  unfolding save load ed_save_keys pq_save_keys
  load-save salt_cl iv_cl salt_pq iv_pq kp name keys certs from_keys from_certs pki_dir pwd files
        after (size, same, scheme, secret, public) (un_ed, un_pq) (back_cl, back_pq) apart
        (s1, s2, s3, s4) e =
      let p1 = cl_key keys name in
      let p2 = pq_key keys name in
      let p3 = cl_cert certs name in
      let p4 = pq_cert certs name in
      let (f1, e1, r1) =
        >>=-eq-ok (ed_save_keys x c k d salt_cl iv_cl kp.classic p1 pwd files) _ e in
      let (f2, e2, r2) = >>=-eq-ok (pq_save_keys x c k d salt_pq iv_pq kp.pq p2 pwd f1) _ r1 in
      let (cl_pem, e3, r3) = >>=-eq-ok (or_err (k.to_pem kp.classic_cert) _) _ r2 in
      let (f3, e4, r4) = >>=-eq-ok (write_file d p3 (utf8 cl_pem) f2) _ r3 in
      let (pq_pem, e5, e6) = >>=-eq-ok (or_err (k.to_pem kp.pq_cert) _) _ r4 in
      let (params1, c1, enc1, w1) =
        stored salt_cl iv_cl kp.classic.secret kp.classic.verifying_key ed25519_oid pwd p1 files f1
          (ensure-eq-ok (x.oid_new ed25519_oid) _ _ e1).1 in
      let (params2, c2, enc2, w2) =
        stored salt_pq iv_pq kp.pq.private_key kp.pq.public_key ml_dsa87_oid pwd p2 f1 f2
          (ensure-eq-ok (x.oid_new ml_dsa87_oid) _ _ e2).1 in
      let (t1, t2, t3, t4) =
        four_writes d keys certs name c1 c2 (utf8 cl_pem) (utf8 pq_pem) files f1 f2 f3 after apart
          w1 w2 e4 e6 in
      rw
        (
          ed_load_keys-eq kp.classic _ pwd after params1 c1 un_ed size same enc1
              (read_file_cong d _ _ after s1 ∙ t1),
          pq_load_keys-eq kp.pq _ pwd after params2 c2 un_pq scheme secret public enc2
              (read_file_cong d _ _ after s2 ∙ t2),
          load_cert-eq kp.classic_cert cl_pem _ after back_cl
              (or_err-eq-ok (k.to_pem kp.classic_cert) _ e3) (read_file_cong d _ _ after s3 ∙ t3),
          load_cert-eq kp.pq_cert pq_pem _ after back_pq (or_err-eq-ok (k.to_pem kp.pq_cert) _ e5)
              (read_file_cong d _ _ after s4 ∙ t4),
        )
        refl
