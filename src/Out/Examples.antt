-- ===== src/Out/Examples.antt =====
-- An infected file, and one accepted for its failing YARA scan with `yara_clean` off.
use keysas.Base.{
  ◌≡◌, refl, Bool, true, false, none, some, [], ◌∷◌, Text, codes, utf8, ok, text_eq, push,
  append_ext,
}
use keysas.Signing.{Crypto}
use keysas.Report.{MetaData, Report, Json, ClockParts, generate_report_metadata, bind_and_sign}
use keysas.Out.{
  FileData, fail_only, should_write, Configuration, Sas, Probes, whole, report_path, output_path,
  is_accepted, recheck, output_file,
}
use keysas.Out.Write.{rejected_unwritten}
use keysas.Out.Release.{Lands, outcome, output_file-outcome, accepted-valid}

abbrev toy : Crypto
toy = record {
  sha256_hex = λ b. b;
  b64_encode = λ b. b;
  b64_decode = λ t. some t;
  from_pem = λ _. none;
  ed_key = λ _. true;
  ed_verify = λ _ _ _. true;
  pq_scheme = true;
  pq_key = λ _. true;
  pq_signature = λ _. true;
  pq_verify = λ _ _ _. true;
}

abbrev json : Json
json = record {
  metadata_to_string = λ m. some m.name;
  report_to_string_pretty = λ r. some r.metadata.name;
  report_from_str = λ _. none;
}

abbrev file : Bool → Bool → FileData
file av yara = record {
  fd = 3;
  md = record {
    filename = codes "a.txt";
    digest = codes "d";
    is_digest_ok = true;
    is_toobig = false;
    size = 1;
    is_type_allowed = true;
    av_pass = av;
    av_report = [];
    yara_pass = yara;
    yara_report = [];
    timestamp = [];
    is_corrupted = false;
    file_type = [];
    specialized_pass = true;
    specialized_analyzer = [];
    specialized_summary = [];
    vt_pass = true;
    vt_detections = 0;
    vt_summary = [];
  };
}

abbrev conf : Configuration
conf = record { sas_out = codes "/sas"; yara_clean = false; krp_mode = fail_only }

abbrev clock : ClockParts
clock = record {
  day = [];
  month = [];
  year = [];
  hour = [];
  minute = [];
  second = [];
  nanosecond = [];
}

abbrev e : Probes
e = record {
  rewinds = true;
  digest = some (codes "d");
  date = clock;
  report_opens = true;
  report_lands = whole;
  output_opens = true;
  output_rewinds = true;
  content = 1 ∷ 2 ∷ [];
  output_lands = whole;
}

abbrev empty : Sas
empty _ = none

infected : is_accepted conf (recheck (codes "d") (file false true).md) ≡ false
unfolding is_accepted recheck text_eq
infected = refl

infected_any :
    (d : Text)
    → some (codes "d") ≡ some d
    → is_accepted conf (recheck d (file false true).md) ≡ false
infected_any d s = let same : codes "d" ≡ d = cc s in cc (infected, same)

elsewhere : ¬ (output_path conf.sas_out (codes "a.txt") ≡ report_path conf.sas_out (codes "a.txt"))
unfolding output_path report_path push append_ext
elsewhere h = cc

rejected_unwritten_example :
    (output_file toy json conf none [] e (file false true) empty).1
      (output_path conf.sas_out (codes "a.txt"))
    ≡ none
rejected_unwritten_example =
    rejected_unwritten toy json conf none [] e (file false true) empty
      (output_path conf.sas_out (codes "a.txt")) infected_any elsewhere

lands : Lands e
lands = record {
  report_opens = refl;
  report_lands = refl;
  output_opens = refl;
  output_rewinds = refl;
  output_lands = refl;
}

abbrev meta : MetaData
unfolding generate_report_metadata recheck text_eq
meta = generate_report_metadata clock (recheck (codes "d") (file true false).md)

abbrev report : Report
unfolding generate_report_metadata recheck text_eq
report = record {
  metadata = meta;
  binding = record {
    file_digest = codes "d";
    metadata_digest = codes "a.txt";
    station_certificate = [];
    report_signature = [];
  };
}

made :
    bind_and_sign toy json
      (recheck (codes "d") (file true false).md)
      (generate_report_metadata clock (recheck (codes "d") (file true false).md))
      none
      []
    ≡ ok report
unfolding bind_and_sign generate_report_metadata recheck text_eq utf8
made = refl

output_file-outcome_example :
    ((output_file toy json conf none [] e (file true false) empty).0 ≡ ok tt)
    × ((output_file toy json conf none [] e (file true false) empty).1 (codes "/sas/a.txt")
        ≡ outcome
            (is_accepted conf (recheck (codes "d") (file true false).md))
            (should_write fail_only
              (generate_report_metadata clock (recheck (codes "d") (file true false).md)).is_valid)
            (output_path (codes "/sas") (codes "a.txt"))
            (report_path (codes "/sas") (codes "a.txt"))
            (1 ∷ 2 ∷ [])
            (utf8 (codes "a.txt\n"))
            empty
            (codes "/sas/a.txt"))
unfolding generate_report_metadata recheck text_eq
output_file-outcome_example =
    output_file-outcome toy json conf none [] e (file true false) empty (codes "/sas/a.txt")
      (codes "d") (codes "a.txt") report lands refl refl made refl

accepted-valid_example :
    is_accepted conf (file true false).md
    ≡ (generate_report_metadata clock (file true true).md).is_valid
accepted-valid_example = accepted-valid conf clock (file true false).md
