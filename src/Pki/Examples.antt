-- ===== src/Pki/Examples.antt =====
-- A root made from the fields of a form, and a key pair that it signs.
use keysas.Base.{
  ap, ◌∙◌, ℕ, ◌≡◌, refl, true, none, some, [], ◌++◌, ◌<◌, Bytes, codes, utf8, text_eq, text_eq_iff,
  ◌*◌, sym, length, drop, ◌-◌, push, if◌then◌else◌, ok,
}
use mathlib.Core.Path.{subst}
use keysas.Signing.{ed25519_oid, ml_dsa87_oid, validate_signing_certificate}
use keysas.Pki.{u32_size, parse_u32, from_fields}
use keysas.Pki.Tbs.{CertReq, seen, seconds, generate_dn, construct_tbs_certificate}
use keysas.Pki.Keys.{
  SigningKey, KeysasPqKey, certificate_of, request_of, ed_generate_csr, pq_generate_csr,
  ed_generate_certificate, pq_generate_certificate,
}
use keysas.Pki.Issue.{
  HybridKeyPair, Drawn, generate_root_ed25519, generate_root_mldsa, generate_root,
  generate_cert_from_csr, generate_signed_keypair,
}
use keysas.Pki.Bounds.{construct-validity}
use keysas.Pki.Possession.{IsHolder, generate_cert_from_csr-IsHolder}
use keysas.Pki.Chain.{KeepsBytes, EdVerifies, PqVerifies}
use keysas.Pki.Store.{
  Pkcs8, Disk, Files, write_file, ed_save_keys, pq_save_keys, store_keypair, save, load,
}
use keysas.Pki.Reload.{ed_info, pq_info, Decrypts, ReadsBack, load-save}
use keysas.Firewall.{HybridPubKeys, verify_key_signatures}
use keysas.Pki.Pubkeys.{get_pubkeys_from_certs, get_pubkeys-verifies}
use keysas.Pki.Hybrid.{generate_signed_keypair-accepted}
use keysas.Pki.Samples.{
  bits, plain, signer, fill, root_keys, usb_keys, fields, dn, usb_name, tbs, root_ed, root_pq,
  usb_ed, usb_pq, toy, root, usb,
}

read :
    from_fields (some (codes "Acme")) none (some (codes "FRA")) none (some (codes "+365"))
    ≡ some (ok fields)
unfolding from_fields utf8 parse_u32
read = refl

-- A name whose second byte is inside a character.
panics : from_fields none none (some (codes "Fé")) none none ≡ none
unfolding from_fields utf8
panics = refl

too_long : parse_u32 (codes "4294967296") ≡ none
unfolding parse_u32
too_long = refl

made : generate_root plain toy signer root_keys fields ≡ ok root
unfolding generate_root generate_root_ed25519 generate_root_mldsa generate_dn
    construct_tbs_certificate seconds certificate_of utf8
made = refl

signed : generate_signed_keypair plain toy signer root usb_keys usb_name fields true ≡ ok usb
unfolding generate_signed_keypair generate_cert_from_csr ed_generate_csr pq_generate_csr request_of
    ed_generate_certificate pq_generate_certificate generate_dn construct_tbs_certificate seconds
    certificate_of text_eq utf8
signed = refl

kept : KeepsBytes plain
kept b bs e = (cc e, cc e)

ed_signature :
    (key : SigningKey) (m sig : Bytes)
    → signer.try_sign key m ≡ some sig
    → length (key.verifying_key ++ key.verifying_key) ≡ 64
    → (length sig ≡ 64) × (toy.ed_verify key.verifying_key m sig ≡ true)
ed_signature key m sig e size =
    let is : key.verifying_key ++ key.verifying_key ≡ sig = cc e in
    (ap length (sym is) ∙ size, (text_eq_iff _ _).1 (sym is))

sound : EdVerifies toy signer root_keys.classic
sound = (refl, refl, λ m sig e. ed_signature root_keys.classic m sig e refl)

sound_usb : EdVerifies toy signer usb_keys.classic
sound_usb = (refl, refl, λ m sig e. ed_signature usb_keys.classic m sig e refl)

pq_signature :
    (key : KeysasPqKey) (m sig : Bytes)
    → signer.pq_sign key m ≡ some sig
    → text_eq sig (key.public_key ++ m) ≡ true
pq_signature key m sig e = let is : key.public_key ++ m ≡ sig = cc e in (text_eq_iff _ _).1 (sym is)

sound_pq : (drawn : Drawn) (key : KeysasPqKey) → drawn.pq ≡ some key → PqVerifies toy signer key
sound_pq _ key _ = (refl, refl, λ m sig e. (refl, pq_signature key m sig e))

generate_signed_keypair-accepted_example :
    (validate_signing_certificate toy (codes "cl") (some (seen plain root_ed))
      ≡ ok (seen plain usb_ed))
    × (validate_signing_certificate toy (codes "pq") (some (seen plain root_pq))
        ≡ ok (seen plain usb_pq))
unfolding text_eq
generate_signed_keypair-accepted_example =
    generate_signed_keypair-accepted plain toy signer kept root_keys usb_keys fields fields root usb
      usb_name true (codes "cl") (codes "pq") sound (sound_pq root_keys) made signed refl refl

abbrev request : CertReq
request = record {
  info = record {
    subject = usb_name;
    public_key = record {
      algorithm = ed25519_oid;
      subject_public_key = bits usb_keys.classic.verifying_key;
    };
  };
  algorithm = ed25519_oid;
  signature = bits (fill 64 2);
}

certified :
    generate_cert_from_csr plain toy signer root request fields usb_keys.ed_serial true ≡ ok usb_ed
unfolding generate_cert_from_csr ed_generate_certificate generate_dn construct_tbs_certificate
    seconds certificate_of text_eq utf8
certified = refl

generate_cert_from_csr-IsHolder_example : IsHolder plain toy signer root request usb_ed
generate_cert_from_csr-IsHolder_example =
    generate_cert_from_csr-IsHolder plain toy signer root request fields usb_keys.ed_serial true
      usb_ed certified

constructed :
    construct_tbs_certificate plain fields dn (fill 32 1) (fill 20 1) ed25519_oid true
    ≡ ok (tbs ed25519_oid (fill 32 1) (fill 19 1) dn)
unfolding construct_tbs_certificate generate_dn seconds utf8
constructed = refl

construct-validity_example :
    (days : ℕ) × (fields.validity ≡ some days)
    × (days * 86400 < u32_size)
    × (plain.from_now (days * 86400) ≡ some (0, 31536000))
construct-validity_example =
    construct-validity plain (some (codes "Acme")) none (some (codes "FRA")) none
      (some (codes "+365")) fields dn (fill 32 1) (fill 20 1) ed25519_oid true
      (tbs ed25519_oid (fill 32 1) (fill 19 1) dn) read constructed

-- A pair with a private key of 32 bytes, and ciphers that name the kind of the key.
abbrev kept_keys : HybridKeyPair
kept_keys = record {
  classic = record { secret = fill 32 5; verifying_key = fill 32 2 };
  classic_cert = usb_ed;
  pq = record { private_key = codes "secret"; public_key = codes "usb" };
  pq_cert = usb_pq;
}

abbrev pkcs8 : Pkcs8
pkcs8 = record {
  scrypt = λ salt iv. some (salt ++ iv);
  encrypt = λ info params pwd. some info.oid;
  try_from = λ b. some b;
  decrypt = λ b pwd. some b;
  decode_msg =
      λ b. some (if text_eq b ed25519_oid then ed_info kept_keys.classic else pq_info kept_keys.pq);
  from_bytes = λ b. record { secret = b; verifying_key = fill 32 2 };
  pq_secret = λ b. true;
  to_pem = λ cert. some cert.signature_algorithm;
  from_pem = λ pem. some (if text_eq pem ed25519_oid then usb_ed else usb_pq);
  from_utf8 = λ b. some b;
}

-- The end of a path tells the files apart.
abbrev ends : Disk
ends = record { resolve = λ p. drop (length p - 6) p; writes = λ _. true }

undone_ed : Decrypts pkcs8 (ed_info kept_keys.classic) (codes "pw")
unfolding text_eq
undone_ed params cipher e =
    let is : ed25519_oid ≡ cipher = cc e in
    (
      cipher,
      cipher,
      refl,
      refl,
      subst (λ b. pkcs8.decode_msg b ≡ some (ed_info kept_keys.classic)) is refl,
    )

undone_pq : Decrypts pkcs8 (pq_info kept_keys.pq) (codes "pw")
unfolding text_eq
undone_pq params cipher e =
    let is : ml_dsa87_oid ≡ cipher = cc e in
    (
      cipher,
      cipher,
      refl,
      refl,
      subst (λ b. pkcs8.decode_msg b ≡ some (pq_info kept_keys.pq)) is refl,
    )

back_cl : ReadsBack pkcs8 usb_ed
unfolding text_eq utf8
back_cl pem e =
    let is : ed25519_oid ≡ pem = cc e in
    subst (λ t. (some (utf8 t) ≡ some t) × (pkcs8.from_pem t ≡ some usb_ed)) is (refl, refl)

back_pq : ReadsBack pkcs8 usb_pq
unfolding text_eq utf8
back_pq pem e =
    let is : ml_dsa87_oid ≡ pem = cc e in
    subst (λ t. (some (utf8 t) ≡ some t) × (pkcs8.from_pem t ≡ some usb_pq)) is (refl, refl)

abbrev saved : Files
saved =
    let one : Files = λ p. if text_eq p (codes "-cl.p8") then some ed25519_oid else none in
    let two : Files = λ p. if text_eq p (codes "-pq.p8") then some ml_dsa87_oid else one p in
    let three : Files = λ p. if text_eq p (codes "cl.pem") then some ed25519_oid else two p in
    λ p. if text_eq p (codes "pq.pem") then some ml_dsa87_oid else three p

writes :
    save plain toy pkcs8 ends [] [] [] [] kept_keys
      (codes "usb")
      (codes "/pki/usb")
      (codes "/pki/usb")
      (codes "pw")
      (λ p. none)
    ≡ ok saved
unfolding save ed_save_keys pq_save_keys store_keypair write_file push utf8
writes = refl

load-save_example :
    load plain toy pkcs8 ends
      (codes "usb")
      (codes "/usb")
      (codes "/usb")
      (codes "/pki")
      (codes "pw")
      saved
    ≡ ok kept_keys
unfolding text_eq push
load-save_example =
    load-save ends plain toy pkcs8 [] [] [] [] kept_keys (codes "usb") (codes "/pki/usb")
      (codes "/pki/usb") (codes "/usb") (codes "/usb") (codes "/pki") (codes "pw") (λ p. none) saved
      (refl, refl, refl, refl, refl) (undone_ed, undone_pq) (back_cl, back_pq)
      (refl, refl, refl, refl, refl, refl) (refl, refl, refl, refl) writes

get_pubkeys-verifies_example :
    (pubkeys : HybridPubKeys) × (get_pubkeys_from_certs toy
        (λ b. some (if text_eq b (codes "cl") then usb_ed else usb_pq))
        (λ path. some (some path))
        (codes "cl")
        (codes "pq")
      ≡ ok (some pubkeys))
    × (verify_key_signatures toy (codes "1/2/3/s/in") (fill 64 2) (codes "usb1/2/3/s/in") pubkeys
        ≡ ok tt)
unfolding text_eq
get_pubkeys-verifies_example =
    get_pubkeys-verifies toy (λ b. some (if text_eq b (codes "cl") then usb_ed else usb_pq)) plain
      signer kept root usb usb_keys usb_name fields true (λ path. some (some path)) (codes "cl")
      (codes "pq") (codes "1/2/3/s/in") (fill 64 2) (codes "usb1/2/3/s/in") sound_usb
      (sound_pq usb_keys) signed (codes "cl", codes "pq", refl, refl, refl, refl) refl refl
