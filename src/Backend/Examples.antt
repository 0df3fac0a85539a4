-- ===== src/Backend/Examples.antt =====
-- The outgoing directory with a file, a report on a file that was blocked, and a file that has the
-- extension of a report.
use keysas.Base.{
  ◌≡◌, ◌⊎◌, refl, Bool, true, false, Option, none, some, List, [], ◌∷◌, Text, codes, All, all,
  if◌then◌else◌, ok,
}
use keysas.Report.{ClockParts, FileMetadata, Bd, generate_report_metadata}
use keysas.Backend.Json.{Value, report_value}
use keysas.Backend.Krp.{Krp, parse_krp, unread}
use keysas.Backend.Listing.{FileStatus, names, list_files_out}
use keysas.Backend.Reasons.{written, causes, first_cause, parse_krp-verdict, parse_krp-silent}
use keysas.Backend.Present.{IsThere, IsShown, list_files_out-IsThere}

abbrev clock : ClockParts
clock = record {
  day = codes "1";
  month = codes "2";
  year = codes "2026";
  hour = codes "3";
  minute = codes "4";
  second = codes "5";
  nanosecond = codes "6";
}

-- clamd did not answer.
abbrev unscanned : FileMetadata
unscanned = record {
  filename = codes "a.pdf";
  digest = codes "d";
  is_digest_ok = true;
  is_toobig = false;
  size = 10;
  is_type_allowed = true;
  av_pass = false;
  av_report = [];
  yara_pass = true;
  yara_report = [];
  timestamp = [];
  is_corrupted = false;
  file_type = codes "pdf";
  specialized_pass = true;
  specialized_analyzer = [];
  specialized_summary = [];
  vt_pass = true;
  vt_detections = 0;
  vt_summary = [];
}

abbrev binding : Bd
binding = record {
  file_digest = [];
  metadata_digest = [];
  station_certificate = [];
  report_signature = [];
}

abbrev read : Text → Option Text
read path = some (codes "json")

abbrev parse : Text → Option Value
parse text = some (report_value (written clock unscanned binding))

parse_krp-verdict_example :
    let krp = parse_krp read parse (codes "/var/local/out/.a.pdf.krp") in
    let is_valid = (generate_report_metadata clock unscanned).is_valid in
    (krp.is_valid ≡ is_valid)
    × (krp.reason ≡ (if is_valid then none else some (first_cause (causes unscanned))))
parse_krp-verdict_example =
    parse_krp-verdict clock unscanned binding read parse (codes "/var/local/out/.a.pdf.krp")
      (codes "json") refl refl

parse_krp-silent_example :
    let krp = parse_krp read parse (codes "/var/local/out/.a.pdf.krp") in
    (krp.is_valid ≡ false)
    × (krp.reason ≡ some (codes "digest"))
    × (checks : List (Text × Bool)) × (krp.checks ≡ some checks)
    × (all (λ c. c.1) checks ≡ true)
parse_krp-silent_example =
    parse_krp-silent clock unscanned binding read parse (codes "/var/local/out/.a.pdf.krp")
      (codes "json") refl refl refl refl refl refl refl refl refl refl refl

abbrev entries : List (Option Text)
entries = some (codes "b.txt") ∷ none ∷ some (codes ".c.txt.krp") ∷ some (codes "notes.krp") ∷ []

abbrev nothing : Text → Bool
nothing path = false

abbrev unreadable : Text → Krp
unreadable path = unread

abbrev status : Text → Bool → Option Text → FileStatus
status name is_valid reason = record {
  filename = name;
  is_valid = is_valid;
  reason = reason;
  detail = none;
  checks = none;
  check_details = none;
}

abbrev shown : List FileStatus
shown =
    status (codes "b.txt") true none
    ∷ status (codes "c.txt") false (some (codes "unknown"))
    ∷ status (codes "notes") false (some (codes "unknown"))
    ∷ []

-- The released file `notes.krp` is shown as a blocked file `notes`.
listing : list_files_out nothing unreadable (codes "/out") (some entries) ≡ ok shown
unfolding list_files_out unread
listing = refl

list_files_out-IsThere_example :
    All
      (λ s. (s.is_valid ≡ false) ⊎ IsThere nothing unreadable (codes "/out") entries s.filename)
      shown
    × All (IsShown nothing unreadable (codes "/out") entries shown) (names entries)
list_files_out-IsThere_example =
    list_files_out-IsThere nothing unreadable (codes "/out") entries shown listing
