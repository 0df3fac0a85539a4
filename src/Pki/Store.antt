-- ===== src/Pki/Store.antt =====
-- keysas_key.rs and keysas_hybrid_keypair.rs: key pairs on disk. The encryption of pkcs8 and the file
-- system are parameters: what a failed write leaves behind is not described.
use keysas.Base.{
  Bool, Option, some, ◌++◌, Text, Bytes, codes, utf8, push, text_eq, if◌then◌else◌, length, ◌==◌,
  Result, ok, message, library, or_err, ensure, ◌>>=◌, ◌>>◌,
}
use keysas.Signing.{Crypto, ed25519_oid, ml_dsa87_oid}
use keysas.Pki.Tbs.{X509, Encoding}
use keysas.Pki.Keys.{SigningKey, KeysasPqKey}
use keysas.Pki.Issue.{HybridKeyPair}

pub record PrivateKeyInfo : Type 0 where
  pub oid : Text
  pub private_key : Bytes
  pub public_key : Option Bytes

pub record Pkcs8 : Type 0 where
  -- `Parameters::scrypt_aes256cbc`, of the salt and the vector, and `encrypt_with_params`
  pub scrypt : Bytes → Bytes → Option Bytes
  pub encrypt : PrivateKeyInfo → Bytes → Text → Option Bytes
  -- `EncryptedPrivateKeyInfo::try_from`, `decrypt` and `decode_msg`
  pub try_from : Bytes → Option Bytes
  pub decrypt : Bytes → Text → Option Bytes
  pub decode_msg : Bytes → Option PrivateKeyInfo
  -- `SigningKey::from_bytes`, `secret_key_from_bytes`
  pub from_bytes : Bytes → SigningKey
  pub pq_secret : Bytes → Bool
  -- certificates in PEM, and `read_to_string` of bytes
  pub to_pem : X509 → Option Text
  pub from_pem : Text → Option X509
  pub from_utf8 : Bytes → Option Text

-- The file that a path leads to, and whether a write to it succeeds.
pub record Disk : Type 0 where
  pub resolve : Text → Text
  pub writes : Text → Bool

abbrev pub Files : Type 0
Files = Text → Option Bytes

unfoldable pub write_file : Disk → Text → Bytes → Files → Result Files
write_file d path content files = do
  ensure (d.writes (d.resolve path)) library
  ok (λ p. if text_eq p (d.resolve path) then some content else files p)

unfoldable pub read_file : Disk → Text → Files → Option Bytes
read_file d path files = files (d.resolve path)

module _ (x : Encoding) (c : Crypto) (k : Pkcs8) (d : Disk) where
  unfoldable pub store_keypair :
      Bytes → Bytes → Bytes → Bytes → Text → Text → Text → Files → Result Files
  store_keypair salt iv prk pbk oid pwd path files = do
    params ← or_err (k.scrypt salt iv) (message (codes "Failed to generate scrypt parameter"))
    cipher ←
        or_err
          (k.encrypt (record { oid = oid; private_key = prk; public_key = some pbk }) params pwd)
          (message (codes "Failed to encrypt private key"))
    write_file d path cipher files

  -- What both `load_keys` start with.
  unfoldable pub load_info : Text → Text → Files → Result PrivateKeyInfo
  load_info path pwd files = do
    cipher ← or_err (read_file d path files) library
    enc_pk ← or_err (k.try_from cipher) (message (codes "Failed to parse EncryptedPrivateKeyInfo"))
    pk ← or_err (k.decrypt enc_pk pwd) (message (codes "Failed to decrypt document"))
    or_err (k.decode_msg pk) (message (codes "Failed to decode asn.1 format for private key"))

  unfoldable pub ed_save_keys : Bytes → Bytes → SigningKey → Text → Text → Files → Result Files
  ed_save_keys salt iv key path pwd files = do
    ensure (x.oid_new ed25519_oid) library
    store_keypair salt iv key.secret key.verifying_key ed25519_oid pwd path files

  unfoldable pub ed_load_keys : Text → Text → Files → Result SigningKey
  ed_load_keys path pwd files = do
    decoded_pk ← load_info path pwd files
    ensure (length decoded_pk.private_key == 32) (message (codes "Key is not 32 bytes long"))
    ok (k.from_bytes decoded_pk.private_key)

  unfoldable pub pq_save_keys : Bytes → Bytes → KeysasPqKey → Text → Text → Files → Result Files
  pq_save_keys salt iv key path pwd files = do
    ensure (x.oid_new ml_dsa87_oid) library
    store_keypair salt iv key.private_key key.public_key ml_dsa87_oid pwd path files

  unfoldable pub pq_load_keys : Text → Text → Files → Result KeysasPqKey
  pq_load_keys path pwd files = do
    decoded_pk ← load_info path pwd files
    ensure c.pq_scheme (message (codes "OQS error: cannot initialize ML-DSA87 scheme"))
    ensure (k.pq_secret decoded_pk.private_key)
        (message (codes "Cannot parse secret pq private key from decode value"))
    public_key ←
        or_err decoded_pk.public_key (message (codes "No PQC public key found in pkcs#8 format"))
    ensure (c.pq_key public_key) (message (codes "Cannot parse PQC public key from pkcs#8"))
    ok (record { private_key = decoded_pk.private_key; public_key = public_key })

  -- The two salts and vectors are drawn, one of each per key.
  unfoldable pub save :
      Bytes
      → Bytes
      → Bytes
      → Bytes
      → HybridKeyPair
      → Text
      → Text
      → Text
      → Text
      → Files
      → Result Files
  save salt_cl iv_cl salt_pq iv_pq kp name keys_path certs_path pwd files = do
    with_cl ←
        ed_save_keys salt_cl iv_cl kp.classic (push keys_path (name ++ codes "-cl.p8")) pwd files
    with_pq ← pq_save_keys salt_pq iv_pq kp.pq (push keys_path (name ++ codes "-pq.p8")) pwd with_cl
    cl_pem ← or_err (k.to_pem kp.classic_cert) library
    with_cert ← write_file d (push certs_path (name ++ codes "-cl.pem")) (utf8 cl_pem) with_pq
    pq_pem ← or_err (k.to_pem kp.pq_cert) library
    write_file d (push certs_path (name ++ codes "-pq.pem")) (utf8 pq_pem) with_cert

  unfoldable pub load_cert : Text → Files → Result X509
  load_cert path files = do
    content ← or_err (read_file d path files) library
    pem ← or_err (k.from_utf8 content) library
    or_err (k.from_pem pem) library

  unfoldable pub load : Text → Text → Text → Text → Text → Files → Result HybridKeyPair
  load name keys_path certs_path pki_dir pwd files = do
    classic ←
        ed_load_keys (push (push pki_dir (codes "." ++ keys_path)) (name ++ codes "-cl.p8")) pwd
          files
    pq ←
        pq_load_keys (push (push pki_dir (codes "." ++ keys_path)) (name ++ codes "-pq.p8")) pwd
          files
    classic_cert ←
        load_cert (push (push pki_dir (codes "." ++ certs_path)) (name ++ codes "-cl.pem")) files
    pq_cert ←
        load_cert (push (push pki_dir (codes "." ++ certs_path)) (name ++ codes "-pq.pem")) files
    ok (record { classic = classic; classic_cert = classic_cert; pq = pq; pq_cert = pq_cert })
