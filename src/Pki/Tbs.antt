-- ===== src/Pki/Tbs.antt =====
-- certificate_field.rs: distinguished names and the signed part of a certificate.
use keysas.Base.{
  ℕ, ◌*◌, ◌%◌, Bool, true, false, Option, none, some, List, [], ◌∷◌, ◌++◌, Text, Bytes, codes, utf8,
  take, Result, ok, message, library, or_err, ◌>>=◌,
}
use keysas.Signing.{Certificate}
use keysas.Pki.{CertificateFields, u32_size}

-- `rfc4519::C`, `O`, `OU` and `CN`.
pub data NameOid : Type 0 where
  country_name : NameOid
  organization_name : NameOid
  organizational_unit : NameOid
  common_name : NameOid

pub record AttributeTypeAndValue : Type 0 where
  pub oid : NameOid
  pub value : Bytes

abbrev pub Rdn : Type 0
Rdn = List AttributeTypeAndValue

abbrev pub RdnSequence : Type 0
RdnSequence = List Rdn

-- What the source reads of a bit string: its bytes, and its bytes where no bit of them is unused.
pub record BitString : Type 0 where
  pub raw_bytes : Bytes
  pub as_bytes : Option Bytes

pub record SubjectPublicKeyInfo : Type 0 where
  pub algorithm : Text
  pub subject_public_key : BitString

-- `rfc5280::ID_CE_AUTHORITY_KEY_IDENTIFIER` and `ID_CE_KEY_USAGE`.
pub data ExtensionOid : Type 0 where
  authority_key_identifier : ExtensionOid
  key_usage : ExtensionOid

pub record Extension : Type 0 where
  pub extn_id : ExtensionOid
  pub critical : Bool
  pub extn_value : Bytes

-- The version is V3 and there are no unique identifiers.
pub record TbsCertificate : Type 0 where
  pub serial_number : Bytes
  pub signature : Text
  pub issuer : RdnSequence
  pub validity : ℕ × ℕ
  pub subject : RdnSequence
  pub subject_public_key_info : SubjectPublicKeyInfo
  pub extensions : List Extension

-- The version is V1 and there are no attributes.
pub record CertReqInfo : Type 0 where
  pub subject : RdnSequence
  pub public_key : SubjectPublicKeyInfo

-- `x509_cert::Certificate`, of which validation reads a part.
pub record X509 : Type 0 where
  pub tbs_certificate : TbsCertificate
  pub signature_algorithm : Text
  pub signature : BitString

pub record CertReq : Type 0 where
  pub info : CertReqInfo
  pub algorithm : Text
  pub signature : BitString

-- The constructors and the encoders of the crates; `none` and `false` are their errors.
pub record Encoding : Type 0 where
  -- `ObjectIdentifier::new`
  pub oid_new : Text → Bool
  -- `Any::new(Tag::PrintableString, _)` and `SetOfVec::insert`
  pub any_new : Bytes → Option Bytes
  pub insert : Rdn → AttributeTypeAndValue → Option Rdn
  pub name_der : RdnSequence → Option Bytes
  pub octet_string : Bytes → Option Bytes
  pub bit_string : Bytes → Option BitString
  pub serial_new : Bytes → Option Bytes
  -- `Validity::from_now`, of a number of seconds
  pub from_now : ℕ → Option (ℕ × ℕ)
  pub tbs_der : TbsCertificate → Option Bytes
  pub info_der : CertReqInfo → Option Bytes

-- The part of a certificate that its validation reads.
unfoldable pub seen : Encoding → X509 → Certificate
seen x cert = record {
  oid = cert.tbs_certificate.subject_public_key_info.algorithm;
  public_key = cert.tbs_certificate.subject_public_key_info.subject_public_key.raw_bytes;
  signature = cert.signature.as_bytes;
  tbs_der = x.tbs_der cert.tbs_certificate;
}

add_attribute : Encoding → NameOid → Option Text → Rdn → Result Rdn
add_attribute x oid none rdn = ok rdn
add_attribute x oid (some name) rdn = do
  value ← or_err (x.any_new (utf8 name)) library
  or_err (x.insert rdn (record { oid = oid; value = value })) library

unfoldable pub generate_dn : Encoding → CertificateFields → Result RdnSequence
unfolding add_attribute
generate_dn x fields = do
  with_c ← add_attribute x country_name fields.country []
  with_o ← add_attribute x organization_name fields.org_name with_c
  with_ou ← add_attribute x organizational_unit fields.org_unit with_o
  rdn ← add_attribute x common_name fields.common_name with_ou
  ok (rdn ∷ [])

-- `value * 60 * 60 * 24` on 32 bits, which wraps around in a release build.
unfoldable pub seconds : ℕ → ℕ
seconds days = days * 60 % u32_size * 60 % u32_size * 24 % u32_size

pub authority_key : Encoding → Bool → RdnSequence → Result (List Extension)
authority_key x false issuer = ok []
authority_key x true issuer = do
  der ← or_err (x.name_der issuer) library
  value ← or_err (x.octet_string der) library
  ok (record { extn_id = authority_key_identifier; critical = false; extn_value = value } ∷ [])

unfoldable pub construct_tbs_certificate :
    Encoding → CertificateFields → RdnSequence → Bytes → Bytes → Text → Bool → Result TbsCertificate
unfolding authority_key
construct_tbs_certificate x fields subject_name pub_value serial algo_oid is_app_cert = do
  days ← or_err fields.validity (message (codes "Invalid validity value"))
  issuer_name ← generate_dn x fields
  pub_key ← or_err (x.bit_string pub_value) (message (codes "Failed get public key raw value"))
  authority ← authority_key x is_app_cert issuer_name
  usage ← or_err (x.octet_string (1 ∷ 0 ∷ [])) library
  serial_number ←
      or_err (x.serial_new (take 19 serial)) (message (codes "Failed to generate serial number"))
  validity ← or_err (x.from_now (seconds days)) (message (codes "Failed to generate validity date"))
  ok (record {
    serial_number = serial_number;
    signature = algo_oid;
    issuer = issuer_name;
    validity = validity;
    subject = subject_name;
    subject_public_key_info = record { algorithm = algo_oid; subject_public_key = pub_key };
    extensions =
        authority ++ (record { extn_id = key_usage; critical = true; extn_value = usage } ∷ []);
  })
