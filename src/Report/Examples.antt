-- ===== src/Report/Examples.antt =====
-- A station with toy cryptography: digests and base64 leave their input, the Ed25519 signature is a
-- fixed block and the ML-DSA-87 one the message with a byte in front.
use keysas.Base.{
  ℕ, zero, suc, ◌<◌, ◌≡◌, refl, true, false, Option, none, some, [], ◌∷◌, ◌++◌, Text, Bytes, codes,
  length, text_eq, text_eq_refl, utf8, ok, arith, split,
}
use keysas.Signing.{Certificate, Crypto, validate_signing_certificate}
use keysas.Report.{
  Report, MetaData, FileMetadata, Json, Disk, HybridKeyPair, ClockParts, generate_report_metadata,
  bind_and_sign, two_parts, file_reference, metadata_reference, check_signatures, check_binding,
  parse_report,
}
use keysas.Report.Parse.{IsAccepted, parse_report-IsAccepted}
use keysas.Report.Roundtrip.{KeysMatch, parse-bind_and_sign}

abbrev fill : ℕ → Bytes
fill zero = []
fill (suc n) = 7 ∷ fill n

abbrev ed_signature : Bytes
ed_signature = fill 64

abbrev certificate : Certificate
certificate = record {
  oid = codes "1.3.101.112";
  public_key = fill 32;
  signature = some ed_signature;
  tbs_der = some (1 ∷ []);
}

abbrev toy : Crypto
toy = record {
  sha256_hex = λ b. b;
  b64_encode = λ b. b;
  b64_decode = λ t. some t;
  from_pem = λ _. some certificate;
  ed_key = λ _. true;
  ed_verify = λ _ _ s. text_eq s ed_signature;
  pq_scheme = true;
  pq_key = λ _. true;
  pq_signature = λ _. true;
  pq_verify = λ m s _. text_eq s (1 ∷ m);
}

abbrev keys : HybridKeyPair
keys = record { classic_sign = λ _. some ed_signature; pq_sign = λ m. some (1 ∷ m) }

abbrev checked_file : FileMetadata
checked_file = record {
  filename = codes "a.txt";
  digest = codes "hello";
  is_digest_ok = true;
  is_toobig = false;
  size = 5;
  is_type_allowed = true;
  av_pass = true;
  av_report = [];
  yara_pass = true;
  yara_report = [];
  timestamp = codes "t";
  is_corrupted = false;
  file_type = codes "text/plain";
  specialized_pass = true;
  specialized_analyzer = [];
  specialized_summary = [];
  vt_pass = true;
  vt_detections = 0;
  vt_summary = [];
}

abbrev parts : ClockParts
parts = record {
  day = codes "1";
  month = codes "January";
  year = codes "2025";
  hour = codes "0";
  minute = codes "0";
  second = codes "0";
  nanosecond = codes "0";
}

abbrev meta : MetaData
unfolding generate_report_metadata
meta = generate_report_metadata parts checked_file

abbrev both_pems : Text
both_pems = codes "A|B"

abbrev signed_by : Option HybridKeyPair → Bytes → Report
unfolding generate_report_metadata
signed_by k signature = record {
  metadata = meta;
  binding = record {
    file_digest = codes "hello";
    metadata_digest = codes "a.txt";
    station_certificate = both_pems;
    report_signature = signature;
  };
}

abbrev json_of : Report → Json
json_of r = record {
  metadata_to_string = λ m. some m.name;
  report_to_string_pretty = λ _. some [];
  report_from_str = λ _. some r;
}

abbrev disk : Disk
disk = record { read_to_string = λ _. some []; read = λ _. some (codes "hello") }

abbrev signed_report : Report
signed_report = signed_by (some keys) (ed_signature ++ 1 ∷ codes "hello-a.txt")

made :
    bind_and_sign toy (json_of signed_report) checked_file meta (some keys) both_pems
    ≡ ok signed_report
unfolding bind_and_sign utf8 generate_report_metadata
made = refl

ed_case : (s : Bytes) → s ≡ ed_signature → (length s ≡ 64) × (text_eq s ed_signature ≡ true)
unfolding text_eq
ed_case s e = rw e (refl, refl)

pq_case : (m s : Bytes) → s ≡ 1 ∷ m → (0 < length s) × (true ≡ true) × (text_eq s (1 ∷ m) ≡ true)
pq_case m s e = rw e (omega arith, refl, text_eq_refl (1 ∷ m))

keys_match : KeysMatch toy keys certificate certificate
keys_match = record {
  ed_length = refl;
  ed_parses = refl;
  pq_available = refl;
  pq_parses = refl;
  ed_verifies = λ m s e. ed_case s (cc e);
  pq_verifies = λ m s e. pq_case m s (cc e);
}

parse-bind_and_sign_example :
    parse_report toy (json_of signed_report) disk (codes "r") (some (codes "a.txt")) none none
    ≡ ok signed_report
unfolding validate_signing_certificate generate_report_metadata utf8
parse-bind_and_sign_example =
    parse-bind_and_sign toy (json_of signed_report) disk (λ b. refl) checked_file meta keys
      certificate certificate none none (codes "A") (codes "B") (codes "r") (codes "a.txt") []
      (codes "hello") signed_report (refl, tt) (refl, tt) refl refl keys_match made refl refl refl
      refl

parse_runs :
    parse_report toy (json_of signed_report) disk (codes "r") (some (codes "a.txt")) none none
    ≡ ok signed_report
unfolding parse_report two_parts file_reference metadata_reference check_signatures check_binding
    validate_signing_certificate generate_report_metadata utf8 text_eq split
parse_runs = refl

parse_report-IsAccepted_example :
    IsAccepted toy (json_of signed_report) disk (codes "r") (codes "a.txt") none none signed_report
parse_report-IsAccepted_example =
    parse_report-IsAccepted toy (json_of signed_report) disk (codes "r") (codes "a.txt") none none
      signed_report parse_runs
