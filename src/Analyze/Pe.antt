-- ===== src/Analyze/Pe.antt =====
-- analyzers/pe.rs: packers and imports of an executable. The parser is the crate goblin's; floating-point
-- numbers are a parameter.
use keysas.Base.{
  ℕ, ◌+◌, ◌-◌, Bool, true, ◌&&◌, Option, none, some, List, [], ◌∷◌, ◌++◌, map, Text, Bytes, codes,
  text_eq, length, take, drop, is_empty, leb, ltb, starts_with, join, to_lowercase, Unicode, ◌==◌,
  if◌then◌else◌,
}
use keysas.Analyze.Findings.{Verdict, Findings, no_findings, alert, inform, for_each, summary_of}

abbrev pub packer_sections : List Text
packer_sections =
    codes "upx"
    ∷ codes ".themida"
    ∷ codes ".winlicen"
    ∷ codes ".mpress"
    ∷ codes ".aspack"
    ∷ codes ".nsp"
    ∷ codes ".obsidium"
    ∷ codes "armadillo"
    ∷ codes ".enigma"
    ∷ []

abbrev pub suspicious_imports : List Text
suspicious_imports =
    codes "CreateRemoteThread"
    ∷ codes "VirtualAllocEx"
    ∷ codes "WriteProcessMemory"
    ∷ codes "URLDownloadToFile"
    ∷ codes "WinExec"
    ∷ codes "RegSetValueEx"
    ∷ codes "ShellExecuteA"
    ∷ codes "ShellExecuteW"
    ∷ codes "LoadLibraryA"
    ∷ codes "GetProcAddress"
    ∷ []

-- `f64`, as far as the source uses it. `above_7_2` and `above_6_5` are the comparisons with the two
-- limits, `show` is `{:.2}`.
pub record Float : Type 1 where
  pub F : Type 0
  pub of_nat : ℕ → F
  pub add : F → F → F
  pub mul : F → F → F
  pub div : F → F → F
  pub neg : F → F
  pub log2 : F → F
  pub above_7_2 : F → Bool
  pub above_6_5 : F → Bool
  pub show : F → Text

-- What goblin gives of a section and of the whole. `name` is the section's name as UTF-8 without the
-- trailing NULs, empty where it is not UTF-8.
pub record Section : Type 0 where
  pub name : Text
  pub pointer_to_raw_data : ℕ  -- u32
  pub size_of_raw_data : ℕ  -- u32

pub record Pe : Type 0 where
  pub sections : List Section
  pub imports : List Text
  pub is_64 : Bool

abbrev occurrences : ℕ → Bytes → ℕ
occurrences b [] = 0
occurrences b (x ∷ xs) = (if x == b then 1 else 0) + occurrences b xs

module _ (fl : Float) where
  -- The sum over the byte values that occur, in their order.
  entropy_from : Bytes → ℕ → ℕ → fl.F → fl.F
  entropy_from buf ℕ.zero b acc = acc
  entropy_from buf (ℕ.suc more) b acc =
      let n = occurrences b buf in
      let p = fl.div (fl.of_nat n) (fl.of_nat (length buf)) in
      entropy_from buf more (b + 1)
        (if ltb 0 n then fl.add acc (fl.mul (fl.neg p) (fl.log2 p)) else acc)

  unfoldable pub entropy : Bytes → fl.F
  unfolding entropy_from
  entropy buf = if is_empty buf then fl.of_nat 0 else entropy_from buf 256 0 (fl.of_nat 0)

  unfoldable pub check_packer : Text → Text → Findings → Findings
  unfolding starts_with
  check_packer name_raw packer f =
      if starts_with name_raw packer then alert (codes "packer section: " ++ name_raw) f else f

  -- The raw data of a section, none where it begins past the end of the file.
  unfoldable pub section_data : Bytes → Section → Option Bytes
  section_data buf s =
      let start = s.pointer_to_raw_data in
      let end =
        if ltb (length buf) (start + s.size_of_raw_data)
        then length buf
        else start + s.size_of_raw_data in
      if ltb start (length buf) then some (take (end - start) (drop start buf)) else none

  unfoldable pub check_entropy : Text → fl.F → Findings → Findings
  check_entropy name_raw ent f =
      if fl.above_7_2 ent
      then alert
          (codes "high entropy section '" ++ name_raw ++ codes "' (" ++ fl.show ent ++ codes ")") f
      else if fl.above_6_5 ent
      then inform
          (codes "elevated entropy '" ++ name_raw ++ codes "' (" ++ fl.show ent ++ codes ")") f
      else f

  unfoldable pub check_section : Unicode → Bytes → Section → Findings → Findings
  unfolding for_each check_packer section_data check_entropy entropy to_lowercase
  check_section u buf s f =
      let name_raw = to_lowercase u s.name in
      let f' = for_each (check_packer name_raw) packer_sections f in
      elim (section_data buf s) [ none ↦ f' | some raw ↦ check_entropy name_raw (entropy raw) f' ]

  -- `eq_ignore_ascii_case`.
  lower_ascii : ℕ → ℕ
  lower_ascii c = if leb 65 c && leb c 90 then c + 32 else c

  same_api : Text → Text → Bool
  unfolding text_eq lower_ascii
  same_api a b = text_eq (map lower_ascii a) (map lower_ascii b)

  matching : Text → List Text → List Text
  matching name [] = []
  matching name (api ∷ apis) =
      let rest = matching name apis in if same_api name api then api ∷ rest else rest

  unfoldable pub suspicious_found : List Text → List Text
  unfolding matching same_api
  suspicious_found [] = []
  suspicious_found (name ∷ imports) = matching name suspicious_imports ++ suspicious_found imports

  unfoldable pub note_imports : List Text → Findings → Findings
  unfolding join
  note_imports found f =
      if is_empty found
      then f
      else inform (codes "suspicious imports: " ++ join (codes ", ") found) f

  unfoldable pub build_summary : List Text → List Text → Text
  unfolding summary_of
  build_summary blocking info = summary_of (codes "no packer or suspicious imports") blocking info

  unfoldable pub findings_of : Unicode → Bytes → Pe → Findings
  unfolding for_each check_section note_imports suspicious_found
  findings_of u buf pe = inform (if pe.is_64 then codes "PE64" else codes "PE32") (
      note_imports (suspicious_found pe.imports)
        (for_each (check_section u buf) pe.sections no_findings))

  -- `parse` is `goblin::pe::PE::parse`.
  unfoldable pub analyze : Unicode → (Bytes → Option Pe) → Option Bytes → Verdict
  unfolding findings_of build_summary
  analyze u parse none = (true, codes "read error - analysis skipped")
  analyze u parse (some buf) = elim (parse buf) [
    | none ↦ (true, codes "PE parse error - analysis skipped")
    | some pe ↦ let f = findings_of u buf pe in (f.passed, build_summary f.blocking f.info)
  ]
