-- ===== src/Pki/Samples.antt =====
-- The keys and certificates of the tests: a root and a key pair that it signs.
use keysas.Base.{
  ℕ, zero, suc, ◌==◌, true, false, none, some, [], ◌∷◌, ◌++◌, Text, Bytes, codes, text_eq, length,
  if◌then◌else◌,
}
use keysas.Signing.{Crypto, ed25519_oid, ml_dsa87_oid}
use keysas.Pki.{CertificateFields}
use keysas.Pki.Tbs.{
  country_name, organization_name, common_name, authority_key_identifier, key_usage, RdnSequence,
  BitString, TbsCertificate, X509, Encoding, seen,
}
use keysas.Pki.Keys.{Signer}
use keysas.Pki.Issue.{HybridKeyPair, Drawn}

abbrev pub bits : Bytes → BitString
bits b = record { raw_bytes = b; as_bytes = some b }

abbrev pub plain : Encoding
plain = record {
  oid_new = λ _. true;
  any_new = λ b. some b;
  insert = λ rdn a. some (rdn ++ (a ∷ []));
  name_der = λ _. some (codes "issuer");
  octet_string = λ b. some b;
  bit_string = λ b. some (bits b);
  serial_new = λ b. some b;
  from_now = λ n. some (0, n);
  tbs_der = λ t. some t.subject_public_key_info.subject_public_key.raw_bytes;
  info_der = λ i. some i.public_key.subject_public_key.raw_bytes;
}

-- The example keys are public: a signature is the key twice, or the key and the message.
abbrev pub signer : Signer
signer = record {
  try_sign = λ key m. some (key.verifying_key ++ key.verifying_key);
  pq_sign = λ key m. some (key.public_key ++ m);
}

abbrev pub fill : ℕ → ℕ → Bytes
fill zero b = []
fill (suc n) b = b ∷ fill n b

abbrev pub root_keys : Drawn
root_keys = record {
  classic = record { secret = []; verifying_key = fill 32 1 };
  pq = some (record { private_key = []; public_key = codes "root" });
  ed_serial = [];
  pq_serial = [];
}

abbrev pub usb_keys : Drawn
usb_keys = record {
  classic = record { secret = []; verifying_key = fill 32 2 };
  pq = some (record { private_key = []; public_key = codes "usb" });
  ed_serial = fill 20 3;
  pq_serial = fill 20 4;
}

abbrev pub fields : CertificateFields
fields = record {
  org_name = some (codes "Acme");
  org_unit = none;
  country = some (codes "FR");
  common_name = none;
  validity = some 365;
}

abbrev pub dn : RdnSequence
dn =
    (record { oid = country_name; value = codes "FR" }
      ∷ record { oid = organization_name; value = codes "Acme" }
      ∷ [])
    ∷ []

abbrev pub usb_name : RdnSequence
usb_name = (record { oid = common_name; value = codes "USB admin" } ∷ []) ∷ []

abbrev pub tbs : Text → Bytes → Bytes → RdnSequence → TbsCertificate
tbs oid key serial subject = record {
  serial_number = serial;
  signature = oid;
  issuer = dn;
  validity = (0, 31536000);
  subject = subject;
  subject_public_key_info = record { algorithm = oid; subject_public_key = bits key };
  extensions =
      record { extn_id = authority_key_identifier; critical = false; extn_value = codes "issuer" }
      ∷ record { extn_id = key_usage; critical = true; extn_value = 1 ∷ 0 ∷ [] }
      ∷ [];
}

abbrev pub cert : Text → Bytes → Bytes → RdnSequence → Bytes → X509
cert oid key serial subject sig = record {
  tbs_certificate = tbs oid key serial subject;
  signature_algorithm = oid;
  signature = bits sig;
}

abbrev pub root_ed : X509
root_ed = cert ed25519_oid (fill 32 1) (fill 19 1) dn (fill 64 1)

abbrev pub root_pq : X509
root_pq = cert ml_dsa87_oid (codes "root") (2 ∷ fill 18 1) dn (codes "rootroot")

abbrev pub usb_ed : X509
usb_ed = cert ed25519_oid (fill 32 2) (fill 19 3) usb_name (fill 64 1)

abbrev pub usb_pq : X509
usb_pq = cert ml_dsa87_oid (codes "usb") (fill 19 4) usb_name (codes "rootusb")

abbrev pub toy : Crypto
toy = record {
  sha256_hex = λ b. b;
  b64_encode = λ b. b;
  b64_decode = λ t. some t;
  from_pem = λ pem. some (seen plain (if text_eq pem (codes "cl") then usb_ed else usb_pq));
  ed_key = λ key. length key == 32;
  ed_verify = λ key m sig. text_eq sig (key ++ key);
  pq_scheme = true;
  pq_key = λ _. true;
  pq_signature = λ _. true;
  pq_verify = λ m sig key. text_eq sig (key ++ m);
}

abbrev pub root : HybridKeyPair
root = record {
  classic = root_keys.classic;
  classic_cert = root_ed;
  pq = record { private_key = []; public_key = codes "root" };
  pq_cert = root_pq;
}

abbrev pub usb : HybridKeyPair
usb = record {
  classic = usb_keys.classic;
  classic_cert = usb_ed;
  pq = record { private_key = []; public_key = codes "usb" };
  pq_cert = usb_pq;
}
