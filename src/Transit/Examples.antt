-- ===== src/Transit/Examples.antt =====
-- A clean text file, a refused one, and the sockets around them.
use keysas.Base.{
  ◌≡◌, ◌↔◌, refl, true, false, Option, none, some, List, [], ◌∷◌, Bytes, Unicode, codes, text_eq,
}
use keysas.Base.Daemon.{Live, live}
use keysas.Progress.{DaemonProgress, new}
use keysas.Transit.Metadata.{
  AnalyzeRequest, AnalyzeResponse, VtRequest, VtResponse, FileMetadata, FileData, Configuration,
}
use keysas.Transit.Peers.{Peer}
use keysas.Transit.FileType.{Kind}
use keysas.Transit.Check.{
  Probes, check_digest, check_size, check_antivirus, check_yara, check_file_type, check_specialized,
  check_virustotal, passed, run_checks, check_file, check_files,
}
use keysas.Transit.Stages.{IsFresh}
use keysas.Transit.Verdict.{IsClean, passed-iff_IsClean}
use keysas.Transit.Loop.{run_checks-live}

abbrev pub vt : Peer VtRequest VtResponse
vt = record {
  from_abstract_name = λ _. true;
  connect_addr = λ _. true;
  encode = λ r. some r.sha256;
  send = λ _. true;
  receive = some (1 ∷ []);
  decode = λ _. some (record { pass = false; detections = 3; summary = [] });
}

abbrev pub analyze : Peer AnalyzeRequest AnalyzeResponse
analyze = record {
  from_abstract_name = λ _. true;
  connect_addr = λ _. true;
  encode = λ r. some r.filename;
  send = λ _. true;
  receive = none;
  decode = λ _. none;
}

abbrev pub e : Probes
e = record {
  dup2 = some 500;
  rewind = λ _. true;
  digest = some (codes "d");
  size = some 5;
  scan = some (record { is_infected = false; detected_infections = [] });
  yara_scan = some [];
  head = some (codes "hello");
  analyze = analyze;
  vt = vt;
  clock = λ _. [];
}

abbrev pub conf : Configuration
conf = record {
  socket_analyze = none;
  socket_vt = none;
  max_size = 10;
  magic_list = codes "txt" ∷ [];
  yara_rules = true;
  type_off = true;
}

abbrev pub md : FileMetadata
md = record {
  filename = codes "a.txt";
  digest = codes "d";
  is_digest_ok = false;
  is_toobig = true;
  size = 0;
  is_type_allowed = false;
  av_pass = false;
  av_report = [];
  yara_pass = false;
  yara_report = [];
  timestamp = [];
  is_corrupted = false;
  file_type = codes "Unknown";
  specialized_pass = true;
  specialized_analyzer = [];
  specialized_summary = [];
  vt_pass = true;
  vt_detections = 0;
  vt_summary = [];
}

abbrev pub checked_md : FileMetadata
checked_md = record md {
  is_digest_ok = true;
  is_toobig = false;
  size = 5;
  is_type_allowed = true;
  av_pass = true;
  yara_pass = true;
  file_type = [];
}

abbrev pub no_kind : Bytes → Option Kind
no_kind _ = none

abbrev pub u : Unicode
u _ c _ = c ∷ []

pub fresh : IsFresh md
fresh = record {
  not_ok = refl;
  too_big = refl;
  not_allowed = refl;
  no_av = refl;
  no_yara = refl;
  specialized = refl;
  vt = refl;
}

pub checks_run : run_checks no_kind u e conf md ≡ live checked_md
unfolding run_checks check_digest check_size check_antivirus check_yara check_file_type
    check_specialized check_virustotal text_eq
checks_run = refl

passed-iff_IsClean_example :
    (passed checked_md ≡ true) ↔ IsClean no_kind u e conf (codes "a.txt") (codes "d")
passed-iff_IsClean_example = passed-iff_IsClean no_kind u e conf md checked_md fresh checks_run

run_checks-live_example : (out : FileMetadata) × (run_checks no_kind u e conf md ≡ live out)
run_checks-live_example = run_checks-live no_kind u conf e md 500 refl (λ k. refl)

abbrev progress : DaemonProgress
progress = new (codes "transit")

abbrev file : FileData
file = record { fd = 3; md = md }

abbrev checked_file : FileData
checked_file = record { fd = 3; md = checked_md }

abbrev after : Live (DaemonProgress × List FileData) → DaemonProgress
after (live r) = r.0
after _ = progress

files_checked :
    check_files no_kind u (λ _. e) conf 0 progress (file ∷ [])
    ≡ live (after (check_files no_kind u (λ _. e) conf 0 progress (file ∷ [])), checked_file ∷ [])
unfolding check_files check_file run_checks check_digest check_size check_antivirus check_yara
    check_file_type check_specialized check_virustotal text_eq
files_checked = refl
