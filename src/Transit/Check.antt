-- ===== src/Transit/Check.antt =====
-- `check_files`: what each check writes into the metadata of a file, and the order in which they run.
use keysas.Base.{
  ℕ, ◌+◌, Bool, true, false, not, ◌&&◌, Option, none, some, List, [], ◌∷◌, ◌++◌, Text, Bytes, codes,
  text_eq, ltb, Unicode, if◌then◌else◌,
}
use keysas.Base.Daemon.{Live, exited, live}
use keysas.Base.Daemon.Process.{◌>>=◌, ◌>>◌, or_exit, must}
use keysas.Progress.{
  AnalysisStep, Call, DaemonProgress, start_file, update_step, complete_file, run,
}
use keysas.Transit.Metadata.{
  AnalyzeRequest, AnalyzeResponse, VtRequest, VtResponse, FileMetadata, FileData, Configuration,
}
use keysas.Transit.Peers.{Peer, call_vt_analyzer, call_specialized_analyzer}
use keysas.Transit.FileType.{Kind, check_is_extension_allowed, get_extension}

-- The answer of clamd.
pub record ScanResult : Type 0 where
  pub is_infected : Bool
  pub detected_infections : List Text

-- What the system and the services answer while one file is checked; none is an error. `rewind k` is the
-- k-th `lseek`, `head` the first megabyte, `yara_scan` the identifiers of the rules that matched.
pub record Probes : Type 0 where
  pub dup2 : Option ℕ
  pub rewind : ℕ → Bool
  pub digest : Option Text
  pub size : Option ℕ
  pub scan : Option ScanResult
  pub yara_scan : Option (List Text)
  pub head : Option Bytes
  pub analyze : Peer AnalyzeRequest AnalyzeResponse
  pub vt : Peer VtRequest VtResponse
  pub clock : ℕ → Text

unfoldable pub check_digest : Probes → FileMetadata → FileMetadata
check_digest e md = elim e.digest [
  | none ↦ md
  | some d ↦ record md { is_digest_ok = text_eq md.digest d }
]

unfoldable pub check_size : Probes → Configuration → FileMetadata → FileMetadata
check_size e conf md = elim e.size [
  | none ↦ md
  | some len ↦ record md { is_toobig = ltb conf.max_size len; size = len }
]

unfoldable pub check_antivirus : Probes → FileMetadata → FileMetadata
check_antivirus e md = elim e.scan [
  | none ↦ record md { av_pass = false }
  | some result ↦ record md {
    av_pass = not result.is_infected;
    av_report = result.detected_infections;
  }
]

push_all : Text → List Text → Text
push_all report [] = report
push_all report (identifier ∷ results) = push_all (report ++ identifier) results

scan_yara : Option (List Text) → FileMetadata → FileMetadata
unfolding push_all
scan_yara none md = md
scan_yara (some []) md = record md { yara_pass = true }
scan_yara (some (r ∷ results)) md = record md {
  yara_report = push_all md.yara_report (r ∷ results);
  yara_pass = false;
}

unfoldable pub check_yara : Probes → Configuration → FileMetadata → FileMetadata
unfolding scan_yara
check_yara e conf md =
    if conf.yara_rules then scan_yara e.yara_scan md else record md { yara_pass = false }

unfoldable pub check_file_type :
    (Bytes → Option Kind) → Unicode → Probes → Configuration → FileMetadata → FileMetadata
unfolding get_extension
check_file_type get u e conf md = elim e.head [
  | none ↦ record md { is_type_allowed = false; file_type = codes "Unknown" }
  | some buffer ↦
      if not conf.type_off
      then record md {
        is_type_allowed = check_is_extension_allowed get u buffer md.filename conf;
        file_type = get_extension get buffer;
      }
      else record md { is_type_allowed = true; file_type = get_extension get buffer }
]

-- With a socket configured; the file is rewound once the descriptor has been lent.
unfoldable pub check_specialized : Probes → Configuration → FileMetadata → Live FileMetadata
check_specialized e conf md = elim conf.socket_analyze [
  | none ↦ live md
  | some sock ↦
      let a = call_specialized_analyzer e.analyze sock md.filename md.file_type in
      if e.rewind 6
      then live (record md {
        specialized_pass = a.pass;
        specialized_analyzer = a.analyzer;
        specialized_summary = a.summary;
      })
      else exited
]

unfoldable pub check_virustotal : Probes → Configuration → FileMetadata → FileMetadata
check_virustotal e conf md = elim conf.socket_vt [
  | none ↦ md
  | some sock ↦
      let v = call_vt_analyzer e.vt sock md.digest in
      record md { vt_pass = v.pass; vt_detections = v.detections; vt_summary = v.summary }
]

unfoldable pub passed : FileMetadata → Bool
passed md =
    md.is_digest_ok
    && (not md.is_toobig
        && (md.is_type_allowed
            && (md.av_pass && (md.yara_pass && (md.specialized_pass && md.vt_pass)))))

-- The checks of one file, in the order of the source.
unfoldable pub run_checks :
    (Bytes → Option Kind) → Unicode → Probes → Configuration → FileMetadata → Live FileMetadata
run_checks get u e conf md0 = do
  nfd ← or_exit e.dup2
  must (e.rewind 0)
  let md1 = check_digest e md0
  must (e.rewind 1)
  let md2 = check_size e conf md1
  must (e.rewind 2)
  let md3 = check_antivirus e md2
  must (e.rewind 3)
  let md4 = check_yara e conf md3
  must (e.rewind 4)
  let md5 = check_file_type get u e conf md4
  must (e.rewind 5)
  md6 ← check_specialized e conf md5
  live (check_virustotal e conf md6)

abbrev when_some : Option Text → Call → List Call
when_some none c = []
when_some (some _) c = c ∷ []

-- The calls of the progress tracker around and between the checks; `ok` is the verdict.
unfoldable pub progress_calls : Probes → Configuration → Text → Bool → List Call
progress_calls e conf filename ok =
    start_file (e.clock 0) filename
    ∷ update_step (e.clock 1) AnalysisStep.hashing
    ∷ update_step (e.clock 2) AnalysisStep.checking_size
    ∷ update_step (e.clock 3) AnalysisStep.antivirus_scan
    ∷ update_step (e.clock 4) AnalysisStep.yara_scan
    ∷ update_step (e.clock 5) AnalysisStep.checking_file_type
    ∷ (when_some conf.socket_analyze (update_step (e.clock 6) AnalysisStep.specialized_analysis)
        ++ (when_some conf.socket_vt (update_step (e.clock 7) AnalysisStep.virus_total_scan)
            ++ complete_file ok
              ∷ update_step (e.clock 8) (
                  if ok
                  then AnalysisStep.complete
                  else AnalysisStep.failed (codes "Vérifications échouées"))
              ∷ []))

unfoldable pub check_file :
    (Bytes → Option Kind)
    → Unicode
    → Probes
    → Configuration
    → DaemonProgress
    → FileData
    → Live (DaemonProgress × FileData)
check_file get u e conf p f = do
  md ← run_checks get u e conf f.md
  live (run (progress_calls e conf f.md.filename (passed md)) p, record f { md = md })

-- The loop over the files; `env` gives the answers for the file at each position.
unfoldable pub check_files :
    (Bytes → Option Kind)
    → Unicode
    → (ℕ → Probes)
    → Configuration
    → ℕ
    → DaemonProgress
    → List FileData
    → Live (DaemonProgress × List FileData)
check_files get u env conf i p [] = live (p, [])
check_files get u env conf i p (f ∷ files) = do
  checked ← check_file get u (env i) conf p f
  rest ← check_files get u env conf (i + 1) checked.0 files
  live (rest.0, checked.1 ∷ rest.1)
