-- ===== src/Report.antt =====
-- keysas_lib/src/file_report.rs: the metadata of a checked file, its report, and the binding of the two
-- by a signature. JSON is serde_json's and the clock the `time` crate's: parameters.

pub mod Parse
pub mod Roundtrip
mod Examples
use keysas.Base.{
  drop, ℕ, Bool, true, false, not, ◌&&◌, ◌||◌, Option, none, some, List, [], ◌∷◌, ◌++◌, Text, Bytes,
  codes, text_eq, length, is_empty, take, leb, ltb, split, utf8, ◌==◌, if◌then◌else◌, Result, ok,
  err, message, library, ensure, or_err, ◌>>=◌, ◌>>◌,
}
use keysas.Signing.{Certificate, Crypto, validate_signing_certificate}

pub record FileReport : Type 0 where
  pub yara : Text
  pub av : List Text
  pub type_allowed : Bool
  pub size : ℕ
  pub corrupted : Bool
  pub toobig : Bool
  pub is_digest_ok : Bool
  pub specialized_pass : Bool
  pub specialized_analyzer : Text
  pub specialized_summary : Text
  pub vt_pass : Bool
  pub vt_detections : ℕ
  pub vt_summary : Text

pub record MetaData : Type 0 where
  pub name : Text
  pub date : Text
  pub file_type : Text
  pub is_valid : Bool
  pub report : FileReport

-- The binding, `Bd` in the source.
pub record Bd : Type 0 where
  pub file_digest : Text
  pub metadata_digest : Text
  pub station_certificate : Text
  pub report_signature : Text

pub record Report : Type 0 where
  pub metadata : MetaData
  pub binding : Bd

pub record FileMetadata : Type 0 where
  pub filename : Text
  pub digest : Text
  pub is_digest_ok : Bool
  pub is_toobig : Bool
  pub size : ℕ  -- u64
  pub is_type_allowed : Bool
  pub av_pass : Bool
  pub av_report : List Text
  pub yara_pass : Bool
  pub yara_report : Text
  pub timestamp : Text
  pub is_corrupted : Bool
  pub file_type : Text
  pub specialized_pass : Bool
  pub specialized_analyzer : Text
  pub specialized_summary : Text
  pub vt_pass : Bool
  pub vt_detections : ℕ  -- u32
  pub vt_summary : Text

-- The parts of the clock readings as `{}` prints them. The source reads the clock once for each part.
pub record ClockParts : Type 0 where
  pub day : Text
  pub month : Text
  pub year : Text
  pub hour : Text
  pub minute : Text
  pub second : Text
  pub nanosecond : Text

report_date : ClockParts → Text
report_date t =
    t.day
    ++ b'-'
      ∷ (t.month
          ++ b'-'
            ∷ (t.year
                ++ b'_'
                  ∷ (t.hour ++ b'-' ∷ (t.minute ++ b'-' ∷ (t.second ++ b'-' ∷ t.nanosecond)))))

new_file_report : FileMetadata → FileReport
new_file_report f = record {
  yara = f.yara_report;
  av = f.av_report;
  type_allowed = f.is_type_allowed;
  size = f.size;
  corrupted = f.is_corrupted;
  toobig = f.is_toobig;
  is_digest_ok = f.is_digest_ok;
  specialized_pass = f.specialized_pass;
  specialized_analyzer = f.specialized_analyzer;
  specialized_summary = f.specialized_summary;
  vt_pass = f.vt_pass;
  vt_detections = f.vt_detections;
  vt_summary = f.vt_summary;
}

unfoldable pub generate_report_metadata : ClockParts → FileMetadata → MetaData
unfolding report_date new_file_report
generate_report_metadata t f = record {
  name = f.filename;
  date = report_date t;
  file_type = f.file_type;
  is_valid =
      f.av_pass
      && (f.yara_pass
          && (not f.is_toobig
              && (not f.is_corrupted
                  && (f.is_digest_ok
                      && (f.is_type_allowed && (f.specialized_pass && f.vt_pass))))));
  report = new_file_report f;
}

-- serde_json, on the two types that the source serialises and reads back.
pub record Json : Type 0 where
  pub metadata_to_string : MetaData → Option Text
  pub report_to_string_pretty : Report → Option Text
  pub report_from_str : Text → Option Report

-- `HybridKeyPair`: `message_sign` of its two keys.
pub record HybridKeyPair : Type 0 where
  pub classic_sign : Bytes → Option Bytes
  pub pq_sign : Bytes → Option Bytes

sign_with : Option HybridKeyPair → Bytes → Result Bytes
sign_with none concat = ok []
sign_with (some keys) concat = do
  classic ← or_err (keys.classic_sign concat) library
  pq ← or_err (keys.pq_sign concat) library
  ok (classic ++ pq)

unfoldable pub bind_and_sign :
    Crypto → Json → FileMetadata → MetaData → Option HybridKeyPair → Text → Result Report
unfolding sign_with
bind_and_sign c j f report_meta sign_keys sign_cert = do
  json_string ← or_err (j.metadata_to_string report_meta) library
  let meta_digest = c.sha256_hex (utf8 json_string)
  signature ← sign_with sign_keys (utf8 (f.digest ++ b'-' ∷ meta_digest))
  ok (record {
    metadata = report_meta;
    binding = record {
      file_digest = c.b64_encode (utf8 f.digest);
      metadata_digest = c.b64_encode (utf8 meta_digest);
      station_certificate = sign_cert;
      report_signature = c.b64_encode signature;
    };
  })

-- The files on disk: their contents, none where they cannot be opened or read. `read_to_string` also
-- wants UTF-8.
pub record Disk : Type 0 where
  pub read_to_string : Text → Option Text
  pub read : Text → Option Bytes

abbrev pub is_some {ℓ} : {A : Type ℓ} → Option A → Bool
is_some none = false
is_some (some _) = true

-- The two parts of the certificate field, once there are exactly two.
two_parts : List Text → Result (Text × Text)
two_parts (a ∷ b ∷ []) = ok (a, b)
two_parts _ = err (message (codes "Invalid number of certificates"))

-- The digest of the linked file, checked against the binding; nothing without a file.
file_reference : Crypto → Disk → Report → Option Text → Result Text
file_reference c d report none = ok []
file_reference c d report (some path) = do
  content ← or_err (d.read path) library
  let file_digest = c.sha256_hex content
  ensure (text_eq (c.b64_encode (utf8 file_digest)) report.binding.file_digest)
      (message (codes "File reference is invalid"))
  ok file_digest

metadata_reference : Crypto → Json → Report → Result Text
metadata_reference c j report = do
  json_string ← or_err (j.metadata_to_string report.metadata) library
  let meta_digest = c.sha256_hex (utf8 json_string)
  ensure (text_eq (c.b64_encode (utf8 meta_digest)) report.binding.metadata_digest)
      (message (codes "Metadata reference is invalid"))
  ok meta_digest

-- Both signatures: the first 64 bytes are Ed25519's, the rest ML-DSA-87's.
check_signatures : Crypto → Certificate → Certificate → Bytes → Bytes → Result (Unit {0})
check_signatures c cert_cl cert_pq msg signature = do
  ensure (ltb 64 (length signature)) (message (codes "Signature is too short"))
  ensure (length cert_cl.public_key == 32) (message (codes "Cannot copy from slice cert_cl_bytes"))
  ensure (c.ed_key cert_cl.public_key) library
  ensure (c.ed_verify cert_cl.public_key msg (take 64 signature)) library
  ensure c.pq_scheme (message (codes "Cannot construct new ML-DSA87 algorithm"))
  ensure (c.pq_key cert_pq.public_key) (message (codes "Failed to extract ML-DSA87 public key"))
  ensure (c.pq_signature (drop 64 signature)) (message (codes "Failed to parse signature field"))
  ensure (c.pq_verify msg (drop 64 signature) cert_pq.public_key)
      (message (codes "ML-DSA87 scheme is not verified"))

-- What `parse_report` does once the certificates are validated.
check_binding :
    Crypto → Json → Disk → Report → Option Text → Certificate → Certificate → Result Report
check_binding c j d report file_path cert_cl cert_pq = do
  file_digest ← file_reference c d report file_path
  meta_digest ← metadata_reference c j report
  signature ← or_err (c.b64_decode report.binding.report_signature) library
  check_signatures c cert_cl cert_pq (utf8 (file_digest ++ b'-' ∷ meta_digest)) signature
  ok report

pub parse_report :
    Crypto
    → Json
    → Disk
    → Text
    → Option Text
    → Option Certificate
    → Option Certificate
    → Result Report
parse_report c j d report_path file_path ca_cert_cl ca_cert_pq = do
  report_content ←
      or_err (d.read_to_string report_path) (message (codes "Failed to read report content"))
  report ← or_err (j.report_from_str report_content) library
  ensure (is_empty report.metadata.name || is_some file_path)
      (message (codes "No file supplied with the report"))
  certs ← two_parts (split b'|' report.binding.station_certificate)
  cert_cl ← validate_signing_certificate c certs.0 ca_cert_cl
  cert_pq ← validate_signing_certificate c certs.1 ca_cert_pq
  check_binding c j d report file_path cert_cl cert_pq
