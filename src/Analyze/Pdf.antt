-- ===== src/Analyze/Pdf.antt =====
-- analyzers/pdf.rs: the search for keywords in the bytes of a PDF.
use keysas.Base.{
  ℕ, zero, suc, ◌+◌, true, Option, none, some, List, [], ◌∷◌, ◌++◌, Text, Bytes, codes, length,
  drop, is_empty, ltb, starts_with, decimal, if◌then◌else◌,
}
use keysas.Analyze.Findings.{Verdict, Findings, no_findings, alert, inform, for_each, summary_of}

abbrev pub blocking_keywords : List Bytes
blocking_keywords =
    codes "/JavaScript"
    ∷ codes "/JS"
    ∷ codes "/OpenAction"
    ∷ codes "/Launch"
    ∷ codes "/RichMedia"
    ∷ codes "/XFA"
    ∷ codes "/JBIG2Decode"
    ∷ []

abbrev pub info_keywords : List Bytes
info_keywords =
    codes "/AA"
    ∷ codes "/EmbeddedFile"
    ∷ codes "/AcroForm"
    ∷ codes "/Encrypt"
    ∷ codes "/ObjStm"
    ∷ []

-- `haystack.windows(needle.len()).position(|w| w == needle)`
unfoldable pub position : Bytes → Bytes → Option ℕ
unfolding starts_with
position needle [] = if starts_with [] needle then some 0 else none
position needle (x ∷ xs) =
    let rest : Option ℕ = elim (position needle xs) [ none ↦ none | some n ↦ some (suc n) ] in
    if starts_with (x ∷ xs) needle then some 0 else rest

-- The `while let`, over what is left of the haystack. Each round takes the needle's bytes away.
unfoldable pub count_from : ℕ → Bytes → Bytes → ℕ
count_from zero rest needle = 0
count_from (suc fuel) rest needle = elim (position needle rest) [
  | none ↦ 0
  | some pos ↦ suc (count_from fuel (drop (pos + length needle) rest) needle)
]

unfoldable pub count_occurrences : Bytes → Bytes → ℕ
unfolding count_from position
count_occurrences haystack needle =
    if is_empty needle then 0 else count_from (suc (length haystack)) haystack needle

unfoldable pub check_blocking : Bytes → Bytes → Findings → Findings
check_blocking buf kw f = if ltb 0 (count_occurrences buf kw) then alert kw f else f

unfoldable pub check_info : Bytes → Bytes → Findings → Findings
check_info buf kw f = if ltb 0 (count_occurrences buf kw) then inform kw f else f

unfoldable pub note_pages : Bytes → Findings → Findings
unfolding decimal
note_pages buf f =
    let pages = count_occurrences buf (codes "/Page") in
    if ltb 0 pages then inform (b'~' ∷ (decimal pages ++ codes " /Page object(s)")) f else f

unfoldable pub build_summary : List Text → List Text → Text
unfolding summary_of
build_summary blocking info = summary_of (codes "no suspicious objects") blocking info

unfoldable pub findings_of : Bytes → Findings
unfolding for_each check_blocking check_info note_pages
findings_of buf = note_pages buf (
    for_each (check_info buf) info_keywords
      (for_each (check_blocking buf) blocking_keywords no_findings))

-- `read` is what `read_fd` gives: none where `dup` or the reading fails.
unfoldable pub analyze : Option Bytes → Verdict
unfolding findings_of build_summary
analyze none = (true, codes "read error - analysis skipped")
analyze (some buf) = let f = findings_of buf in (f.passed, build_summary f.blocking f.info)
