-- ===== src/Analyze/Daemon.antt =====
-- `dispatch` and the loop of main.rs.
use keysas.Base.{
  ℕ, Bool, true, false, Option, none, some, List, [], ◌∷◌, Text, Bytes, codes, is_empty, Unicode,
  if◌then◌else◌,
}
use keysas.Base.Daemon.{AncillaryData, received_fds, buffer}
use keysas.Analyze.Findings.{Verdict}
use keysas.Analyze.Category.{
  Category, lnk, office, pdf, pe, script, archive, iso, unknown, detect_category,
}
use keysas.Analyze.Script
use keysas.Analyze.Archive
use keysas.Analyze.Iso
use keysas.Analyze.Pe
use keysas.Analyze.Office
use keysas.Analyze.Pdf
use keysas.Analyze.Lnk

pub record AnalyzeRequest : Type 0 where
  pub filename : Text
  pub file_type : Text

pub record AnalyzeResponse : Type 0 where
  pub performed : Bool
  pub passed : Bool
  pub analyzer : Text
  pub summary : Text

-- Everything outside the source: the Unicode tables, floating point, the parsers, and what they and the
-- system give for the file at hand.
pub record Environment : Type 1 where
  pub unicode : Unicode
  pub alphanumeric : ℕ → Bool
  pub lossy : Bytes → Text
  pub float : Pe.Float
  pub parse_pe : Bytes → Option Pe.Pe
  pub parse_zip : Bytes → Option (List (Option Office.ZipFile))
  pub parse_cfb : Bytes → Option Office.Compound
  pub read_fd : Option Bytes
  pub script_file : Script.Opened
  pub lnk_file : Lnk.Opened
  pub tmp_write : Archive.TmpWrite
  pub readers : Archive.Readers

performed_by : Text → Verdict → AnalyzeResponse
performed_by name (passed, summary) = record {
  performed = true;
  passed = passed;
  analyzer = name;
  summary = summary;
}

-- The answer without an analysis.
abbrev pub not_performed : AnalyzeResponse
not_performed = record { performed = false; passed = true; analyzer = []; summary = [] }

unfoldable pub dispatch_as : Environment → Text → Text → Category → AnalyzeResponse
unfolding performed_by Office.analyze Pdf.analyze Pe.analyze Script.analyze Lnk.analyze
    Archive.analyze Iso.analyze
dispatch_as e filename tmp_dir office =
    performed_by (codes "office-native")
      (Office.analyze e.unicode e.parse_zip e.parse_cfb e.read_fd filename)
dispatch_as e filename tmp_dir pdf = performed_by (codes "pdfid") (Pdf.analyze e.read_fd)
dispatch_as e filename tmp_dir pe =
    performed_by (codes "goblin") (Pe.analyze e.float e.unicode e.parse_pe e.read_fd)
dispatch_as e filename tmp_dir script =
    performed_by (codes "script-patterns") (Script.analyze e.unicode e.script_file filename)
dispatch_as e filename tmp_dir lnk =
    performed_by (codes "lnk-parser") (Lnk.analyze e.unicode e.lnk_file)
dispatch_as e filename tmp_dir archive =
    performed_by (codes "archive-scanner")
      (Archive.analyze e.unicode e.alphanumeric e.tmp_write e.readers filename tmp_dir).0
dispatch_as e filename tmp_dir iso =
    performed_by (codes "iso-scanner") (Iso.analyze e.lossy e.unicode e.read_fd)
dispatch_as e filename tmp_dir unknown = not_performed

unfoldable pub dispatch : Environment → Text → Text → Text → AnalyzeResponse
unfolding dispatch_as detect_category
dispatch e filename file_type tmp_dir =
    dispatch_as e filename tmp_dir (detect_category e.unicode filename file_type)

-- What a turn of the loop meets: whether a connection comes, the bytes received (none on an error) and
-- the control messages.
pub record Turn : Type 0 where
  pub accepted : Bool
  pub received : Option Bytes
  pub messages : List (Option AncillaryData)

-- What it does: the response that is sent, if one could be encoded, and the descriptors it closes.
pub record Done : Type 0 where
  pub sent : Option Bytes
  pub closed : List ℕ

unfoldable pub first_fd : List ℕ → Option ℕ
first_fd [] = none
first_fd (fd ∷ fds) = some fd

module _ (decode : Bytes → Option AnalyzeRequest) (encode : AnalyzeResponse → Option Bytes) where
  -- A descriptor whose request does not decode is not closed.
  unfoldable pub answer : Environment → Text → ℕ → Option AnalyzeRequest → Done
  answer e tmp_dir fd none = record { sent = encode not_performed; closed = [] }
  answer e tmp_dir fd (some req) = record {
    sent = encode (dispatch e req.filename req.file_type tmp_dir);
    closed = fd ∷ [];
  }

  unfoldable pub with_fd : Environment → Text → Bytes → Option ℕ → Done
  with_fd e tmp_dir bytes none = record { sent = encode not_performed; closed = [] }
  with_fd e tmp_dir bytes (some fd) = answer e tmp_dir fd (decode (buffer 4096 bytes))

  -- Of several descriptors the first is used, the others stay open.
  unfoldable pub turn : Environment → Text → Turn → Done
  unfolding with_fd answer first_fd received_fds dispatch
  turn e tmp_dir t =
      if t.accepted
      then elim t.received [
        | none ↦ record { sent = none; closed = [] }
        | some bytes ↦
            if is_empty bytes
            then record { sent = none; closed = [] }
            else with_fd e tmp_dir bytes (first_fd (received_fds t.messages))
      ]
      else record { sent = none; closed = [] }
