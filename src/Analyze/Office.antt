-- ===== src/Analyze/Office.antt =====
-- analyzers/office.rs: macros in OOXML and OLE documents, objects in RTF. What the crates zip and cfb read
-- of the file is a parameter.
use keysas.Base.{
  ℕ, ◌+◌, Bool, true, false, not, ◌&&◌, ◌||◌, Option, none, some, List, [], ◌∷◌, ◌++◌, map, Text,
  Bytes, codes, text_eq, any, retain, is_empty, leb, contains, ends_with, to_lowercase, Unicode,
  if◌then◌else◌,
}
use keysas.Analyze.Findings.{Verdict, Findings, no_findings, alert, inform, for_each, summary_of}
use keysas.Analyze.Category.{lower_extension}

abbrev pub high_risk_patterns : List Bytes
high_risk_patterns =
    codes "AutoExec"
    ∷ codes "AutoOpen"
    ∷ codes "Auto_Open"
    ∷ codes "Document_Open"
    ∷ codes "Workbook_Open"
    ∷ codes "Shell"
    ∷ codes "WScript"
    ∷ codes "CreateObject"
    ∷ codes "VBA stomping"
    ∷ []

abbrev pub info_patterns : List Bytes
info_patterns =
    codes "Base64"
    ∷ codes "StrReverse"
    ∷ codes "Chr("
    ∷ codes "Hex("
    ∷ codes "URLDownloadToFile"
    ∷ codes "WinExec"
    ∷ codes "CreateRemoteThread"
    ∷ []

lower_ascii : ℕ → ℕ
lower_ascii c = if leb 65 c && leb c 90 then c + 32 else c

-- Some window of the haystack equals the needle up to the case of ASCII letters.
unfoldable pub contains_nocase : Bytes → Bytes → Bool
unfolding contains lower_ascii
contains_nocase haystack needle =
    not (is_empty needle) && contains (map lower_ascii haystack) (map lower_ascii needle)

matching : Bytes → List Bytes → List Text
unfolding contains_nocase
matching bytes [] = []
matching bytes (pat ∷ pats) =
    let rest = matching bytes pats in if contains_nocase bytes pat then pat ∷ rest else rest

unfoldable pub scan_patterns : Bytes → List Text × List Text
unfolding matching
scan_patterns bytes = (matching bytes high_risk_patterns, matching bytes info_patterns)

extend : List Text × List Text → Findings → Findings
extend (block, info) f = record f { blocking = f.blocking ++ block; info = f.info ++ info }

-- What becomes of the findings once the macros have been scanned.
judge_macros : Findings → Findings
judge_macros f =
    if is_empty f.blocking
    then inform (codes "VBA macros present (no high-risk pattern detected)") f
    else record f { passed = false }

-- An entry of an OOXML archive that could be opened: its name, its bytes and its text, none where it
-- cannot be read.
pub record ZipFile : Type 0 where
  pub name : Text
  pub bytes : Option Bytes
  pub text : Option Text

unfoldable pub is_vba : Unicode → Option ZipFile → Bool
unfolding ends_with to_lowercase text_eq
is_vba u none = false
is_vba u (some e) = ends_with (to_lowercase u e.name) (codes "vbaproject.bin")

scan_entry : Option ZipFile → Findings → Findings
unfolding extend scan_patterns
scan_entry none f = f
scan_entry (some e) f = elim e.bytes [ none ↦ f | some bytes ↦ extend (scan_patterns bytes) f ]

-- The first entry with macros is scanned.
scan_vba : Unicode → List (Option ZipFile) → Findings → Findings
unfolding is_vba scan_entry
scan_vba u [] f = f
scan_vba u (e ∷ entries) f =
    let rest = scan_vba u entries f in if is_vba u e then scan_entry e f else rest

note_external : Text → Findings → Findings
unfolding contains
note_external xml f =
    if contains xml (codes "http://")
      || (contains xml (codes "https://") || contains xml (codes "ftp://"))
    then inform (codes "external relationship target") f
    else f

note_ole : Text → Findings → Findings
unfolding contains
note_ole xml f =
    if contains xml (codes "oleObject") then inform (codes "embedded OLE object") f else f

scan_rels : Unicode → Option ZipFile → Findings → Findings
unfolding note_external note_ole ends_with to_lowercase text_eq
scan_rels u none f = f
scan_rels u (some e) f =
    if ends_with (to_lowercase u e.name) (codes ".rels")
    then elim e.text [ none ↦ f | some xml ↦ note_ole xml (note_external xml f) ]
    else f

unfoldable pub ooxml_findings : Unicode → List (Option ZipFile) → Findings
unfolding for_each scan_rels scan_vba judge_macros is_vba
ooxml_findings u entries = for_each (scan_rels u) entries (
    if any (is_vba u) entries
    then judge_macros (scan_vba u entries no_findings)
    else inform (codes "no macros") no_findings)

unfoldable pub build_summary : List Text → List Text → Text
unfolding summary_of
build_summary blocking info = summary_of (codes "no findings") blocking info

conclude : Findings → Verdict
unfolding build_summary
conclude f = (f.passed, build_summary f.blocking f.info)

-- `archive` is none where the ZIP does not parse; an entry is none where it cannot be opened.
unfoldable pub analyze_ooxml : Unicode → Option (List (Option ZipFile)) → Verdict
unfolding ooxml_findings conclude
analyze_ooxml u none = (true, codes "ZIP parse error - analysis skipped")
analyze_ooxml u (some entries) = conclude (ooxml_findings u entries)

-- A compound file: the paths of its entries, lossily as text, and the stream at a path, none where it
-- cannot be opened or read.
pub record Compound : Type 0 where
  pub paths : List Text
  pub stream : Text → Option Bytes

is_module : Text → Bool
unfolding contains ends_with text_eq
is_module p =
    contains p (codes "/vba/")
    && (not (ends_with p (codes "/")) && not (ends_with p (codes "_vba_project")))

scan_stream : Compound → Text → Findings → Findings
unfolding extend scan_patterns
scan_stream c path f = elim (c.stream path) [
  | none ↦ f
  | some bytes ↦ extend (scan_patterns bytes) f
]

has_macros : List Text → Bool
unfolding contains
has_macros entries =
    any (λ p. contains p (codes "vba")) entries
    || any (λ p. contains p (codes "macro") || contains p (codes "module")) entries

note_objects : List Text → Findings → Findings
unfolding contains
note_objects entries f =
    if any (λ p. contains p (codes "equation") || contains p (codes "olestream")) entries
    then inform (codes "embedded OLE object") f
    else f

unfoldable pub ole_findings : Unicode → Compound → Findings
unfolding for_each scan_stream is_module judge_macros has_macros note_objects to_lowercase
ole_findings u c =
    let entries = map (to_lowercase u) c.paths in
    note_objects entries (
      if has_macros entries
      then judge_macros (for_each (scan_stream c) (retain is_module entries) no_findings)
      else inform (codes "no macros") no_findings)

unfoldable pub analyze_ole : Unicode → Option Compound → Verdict
unfolding ole_findings conclude
analyze_ole u none = (true, codes "CFB parse error - analysis skipped")
analyze_ole u (some c) = conclude (ole_findings u c)

abbrev pub rtf_blocking : List Bytes
rtf_blocking = codes "\\objhtml" ∷ codes "\\objocx" ∷ codes "\\objclass" ∷ []

abbrev pub rtf_info : List Bytes
rtf_info = codes "\\object" ∷ codes "\\pict" ∷ codes "\\objdata" ∷ []

unfoldable pub check_rtf : Bytes → Bytes → Findings → Findings
unfolding contains_nocase
check_rtf buf pattern f = if contains_nocase buf pattern then alert pattern f else f

unfoldable pub note_rtf : Bytes → Bytes → Findings → Findings
unfolding contains_nocase contains
note_rtf buf pattern f =
    if contains_nocase buf pattern && not (any (λ b. contains b pattern) f.blocking)
    then inform pattern f
    else f

unfoldable pub rtf_findings : Bytes → Findings
unfolding for_each check_rtf note_rtf
rtf_findings buf =
    for_each (note_rtf buf) rtf_info (for_each (check_rtf buf) rtf_blocking no_findings)

unfoldable pub analyze_rtf : Bytes → Verdict
unfolding rtf_findings conclude
analyze_rtf buf = conclude (rtf_findings buf)

-- `archive` and `compound` are the crates' readings of the bytes.
unfoldable pub analyze :
    Unicode
    → (Bytes → Option (List (Option ZipFile)))
    → (Bytes → Option Compound)
    → Option Bytes
    → Text
    → Verdict
unfolding analyze_ooxml analyze_ole analyze_rtf lower_extension text_eq
analyze u archive compound none filename = (true, codes "read error - analysis skipped")
analyze u archive compound (some buf) filename =
    let ext = lower_extension u filename in
    if text_eq ext (codes "docx") || (text_eq ext (codes "xlsx") || text_eq ext (codes "pptx"))
    then analyze_ooxml u (archive buf)
    else if text_eq ext (codes "doc") || (text_eq ext (codes "xls") || text_eq ext (codes "ppt"))
    then analyze_ole u (compound buf)
    else if text_eq ext (codes "rtf")
    then analyze_rtf buf
    else (true, codes "unsupported office format")
