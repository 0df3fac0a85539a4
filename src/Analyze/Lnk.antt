-- ===== src/Analyze/Lnk.antt =====
-- analyzers/lnk.rs: the search for targets in the strings of a Windows shell link.
use keysas.Base.{
  ℕ, Bool, true, false, not, ◌&&◌, ◌||◌, Option, none, some, List, [], ◌∷◌, ◌++◌, Text, Bytes,
  codes, length, take, is_empty, leb, ltb, starts_with, contains, to_lowercase, Unicode, ◌==◌,
  if◌then◌else◌,
}
use keysas.Analyze.Findings.{Verdict, Findings, no_findings, alert, inform, for_each, summary_of}

abbrev pub suspicious_cmdline : List Text
suspicious_cmdline =
    codes "powershell"
    ∷ codes "cmd.exe"
    ∷ codes "wscript"
    ∷ codes "cscript"
    ∷ codes "mshta"
    ∷ codes "rundll32"
    ∷ codes "regsvr32"
    ∷ codes "msiexec"
    ∷ codes "certutil"
    ∷ codes "bitsadmin"
    ∷ codes "wmic"
    ∷ []

abbrev pub suspicious_paths : List Text
suspicious_paths =
    codes "%temp%"
    ∷ codes "%appdata%"
    ∷ codes "%localappdata%"
    ∷ codes "%programdata%"
    ∷ codes "\\temp\\"
    ∷ codes "\\tmp\\"
    ∷ []

abbrev pub is_printable : ℕ → Bool
is_printable b = leb 0x20 b && ltb b 0x7f

-- What has been collected so far: the result, and the run in hand.
unfoldable pub flush : Text → Text → Text
flush result current = if leb 6 (length current) then result ++ current ++ b' ' ∷ [] else result

-- The last run gets no space.
unfoldable pub finish : Text → Text → Text
finish result current = if leb 6 (length current) then result ++ current else result

unfoldable pub strings_from : Text → Text → Bytes → Text
unfolding flush finish
strings_from result current [] = finish result current
strings_from result current (b ∷ buf) =
    strings_from (if is_printable b then result else flush result current)
      (if is_printable b then current ++ b ∷ [] else []) buf

-- Runs of at least six printable ASCII characters.
unfoldable pub extract_strings : Bytes → Text
unfolding strings_from
extract_strings buf = strings_from [] [] buf

is_ascii_whitespace : ℕ → Bool
is_ascii_whitespace c = c == 0x20 || (leb 9 c && leb c 13)

-- `text.split_whitespace()`; the text is printable ASCII, so of the white space only the space is met.
words_from : Text → Text → List Text
words_from current [] = if is_empty current then [] else current ∷ []
words_from current (c ∷ text) =
    let rest = words_from (if is_ascii_whitespace c then [] else current ++ c ∷ []) text in
    if is_ascii_whitespace c && not (is_empty current) then current ∷ rest else rest

is_ascii_alphabetic : ℕ → Bool
is_ascii_alphabetic c = (leb 65 c && leb c 90) || (leb 97 c && leb c 122)

starts_with_drive : Text → Bool
unfolding is_ascii_alphabetic starts_with
starts_with_drive [] = false
starts_with_drive (c ∷ word) =
    ltb 3 (length (c ∷ word)) && (is_ascii_alphabetic c && starts_with word (codes ":\\"))

first_path : List Text → Option Text
first_path [] = none
first_path (word ∷ words) =
    let rest = first_path words in
    if starts_with_drive word || starts_with word (codes "\\\\") then some (take 80 word) else rest

unfoldable pub extract_target_path : Text → Option Text
unfolding words_from first_path starts_with_drive is_ascii_whitespace starts_with
extract_target_path text = first_path (words_from [] text)

unfoldable pub check_cmdline : Text → Text → Findings → Findings
check_cmdline text_lower cmd f =
    if contains text_lower cmd then alert (codes "target: " ++ cmd) f else f

unfoldable pub check_path : Text → Text → Findings → Findings
check_path text_lower path f =
    if contains text_lower path then alert (codes "path: " ++ path) f else f

unfoldable pub check_unc : Text → Findings → Findings
check_unc text_lower f =
    if contains text_lower (codes "\\\\") && not (contains text_lower (codes "\\\\localhost"))
    then alert (codes "network share target (UNC)") f
    else f

unfoldable pub note_target : Text → Findings → Findings
note_target text f = elim (extract_target_path text) [
  | none ↦ f
  | some target ↦ inform (codes "target: " ++ target) f
]

unfoldable pub build_summary : List Text → List Text → Text
unfolding summary_of
build_summary blocking info = summary_of (codes "no suspicious target or path") blocking info

-- A shell link begins with the size of its header, 0x4c, and is at least that long.
unfoldable pub is_lnk : Bytes → Bool
unfolding starts_with
is_lnk buf = leb 0x4c (length buf) && starts_with buf (0x4c ∷ 0 ∷ 0 ∷ 0 ∷ [])

unfoldable pub findings_of : Unicode → Text → Findings
unfolding for_each check_cmdline check_path check_unc note_target to_lowercase
findings_of u text =
    let text_lower = to_lowercase u text in
    note_target text (
      check_unc text_lower (
        for_each (check_path text_lower) suspicious_paths
          (for_each (check_cmdline text_lower) suspicious_cmdline no_findings)))

-- How the descriptor can be read: `dup` fails, the reading fails, or the bytes.
pub data Opened : Type 0 where
  dup_failed read_failed : Opened
  content : Bytes → Opened

unfoldable pub analyze : Unicode → Opened → Verdict
unfolding is_lnk findings_of build_summary extract_strings
analyze u dup_failed = (true, codes "fd dup failed")
analyze u read_failed = (true, codes "file read failed")
analyze u (content buf) =
    if not (is_lnk buf)
    then (true, codes "not a valid LNK file")
    else (let f = findings_of u (extract_strings buf) in
        (f.passed, build_summary f.blocking f.info))
