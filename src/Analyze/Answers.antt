-- ===== src/Analyze/Answers.antt =====
-- The answers of the daemon of main.rs as a whole, and the temporary file of archive.rs.
use keysas.Base.{
  ℕ, ◌≡◌, ◌≢◌, ◌↔◌, ◌⊎◌, refl, sym, ap, Bool, true, false, not, none, some, inl, inr, Bool-cases,
  Option-cases, List, [], ◌∷◌, ◌++◌, Text, Bytes, codes, all, Some, mem_text, contains,
  to_lowercase, Unicode, ◌==◌, arith,
}
use keysas.Analyze.Category.{
  Category, lnk, office, pdf, pe, script, archive, iso, unknown, detect_category, category_of,
  lower_extension, script_extensions, office_extensions,
}
use keysas.Analyze.Daemon.{Environment, dispatch_as, dispatch}
use keysas.Analyze.Verdicts.{Blocks, script-verdict}
use keysas.Analyze.Archive
use keysas.Analyze.Script
use keysas.Analyze.Lnk
use keysas.Analyze.Office
use keysas.Analyze.Pdf
use keysas.Analyze.Pe
use keysas.Analyze.Iso

is_unknown : Category → Bool
is_unknown unknown = true
is_unknown c = false

as_performed :
    (e : Environment) (filename tmp_dir : Text) (c : Category)
    → ((dispatch_as e filename tmp_dir c).performed ≡ false ↔ c ≡ unknown)
      × ((dispatch_as e filename tmp_dir c).passed ≡ false
          → (dispatch_as e filename tmp_dir c).performed ≡ true)
unfolding dispatch_as is_unknown
as_performed e filename tmp_dir unknown = (((λ _. refl), (λ _. refl)), (λ p. sym p))
as_performed e filename tmp_dir c = (
  ((λ h. absurd (ground arith)), (λ h. let d = ap is_unknown h in absurd (ground arith))),
  (λ _. refl),
)

-- The daemon says that it performed no analysis just where the file is of no category that it knows, and
-- it fails no file without one.
pub dispatch-performed :
    (e : Environment) (filename file_type tmp_dir : Text)
    → ((dispatch e filename file_type tmp_dir).performed ≡ false
        ↔ detect_category e.unicode filename file_type ≡ unknown)
      × ((dispatch e filename file_type tmp_dir).passed ≡ false
          → (dispatch e filename file_type tmp_dir).performed ≡ true)
unfolding dispatch
dispatch-performed e filename file_type tmp_dir =
    as_performed e filename tmp_dir (detect_category e.unicode filename file_type)

-- No analyzer can see the file.
abbrev pub IsUnreadable : Environment → Type 0
IsUnreadable e =
    (e.read_fd ≡ none)
    × ((e.script_file ≡ Script.dup_failed) ⊎ (e.script_file ≡ Script.read_failed))
    × ((e.lnk_file ≡ Lnk.dup_failed) ⊎ (e.lnk_file ≡ Lnk.read_failed))
    × ((e.tmp_write ≡ Archive.not_created) ⊎ (e.tmp_write ≡ Archive.broken_off))

unreadable_as :
    (e : Environment) (filename tmp_dir : Text) (c : Category)
    → IsUnreadable e
    → (dispatch_as e filename tmp_dir c).passed ≡ true
unfolding dispatch_as Office.analyze Pdf.analyze Pe.analyze Script.analyze Lnk.analyze
    Archive.analyze Iso.analyze
unreadable_as e filename tmp_dir office (r, s, l, t) = rw r refl
unreadable_as e filename tmp_dir pdf (r, s, l, t) = rw r refl
unreadable_as e filename tmp_dir pe (r, s, l, t) = rw r refl
unreadable_as e filename tmp_dir iso (r, s, l, t) = rw r refl
unreadable_as e filename tmp_dir archive (r, s, l, inl t) = rw t refl
unreadable_as e filename tmp_dir archive (r, s, l, inr t) = rw t refl
unreadable_as e filename tmp_dir script (r, inl s, l, t) = rw s refl
unreadable_as e filename tmp_dir script (r, inr s, l, t) = rw s refl
unreadable_as e filename tmp_dir lnk (r, s, inl l, t) = rw l refl
unreadable_as e filename tmp_dir lnk (r, s, inr l, t) = rw l refl
unreadable_as e filename tmp_dir unknown h = refl

-- A file that no analyzer can read is passed, whatever its category.
pub unreadable-passed :
    (e : Environment) (filename file_type tmp_dir : Text)
    → IsUnreadable e
    → (dispatch e filename file_type tmp_dir).passed ≡ true
unfolding dispatch
unreadable-passed e filename file_type tmp_dir h =
    unreadable_as e filename tmp_dir (detect_category e.unicode filename file_type) h

-- The category of a script comes from its extension, and there is a table of patterns for it.
script_extension :
    (ext ft : Text) → category_of ext ft ≡ script → mem_text ext script_extensions ≡ true
unfolding category_of
script_extension ext ft e = ground arith

tables : (ext : Text) → mem_text ext script_extensions ≡ true → Script.patterns_of ext ≢ none
unfolding mem_text Script.patterns_of
tables ext e n = absurd (ground arith)

office_only :
    (e : Environment) (filename tmp_dir : Text)
    → mem_text (lower_extension e.unicode filename) office_extensions ≡ false
    → (dispatch_as e filename tmp_dir office).passed ≡ true
unfolding dispatch_as Office.analyze mem_text
office_only e filename tmp_dir other = elim (Option-cases e.read_fd) [
  | inl n ↦ rw n refl
  | inr (buf, r) ↦ rw r (ground arith)
]

-- Every file that is taken for a script has a table of patterns to be searched for.
pub script-has_patterns :
    (u : Unicode) (filename file_type : Text)
    → detect_category u filename file_type ≡ script
    → (patterns : List Script.Pattern) × (Script.patterns_of (lower_extension u filename)
        ≡ some patterns)
unfolding detect_category
script-has_patterns u filename file_type e =
    let ext = lower_extension u filename in
    elim (Option-cases (Script.patterns_of ext)) [
      | inl n ↦ absurd (tables ext (script_extension ext (to_lowercase u file_type) e) n)
      | inr found ↦ found
    ]

-- A file that is taken for an office document by its type alone, its extension being none of the seven,
-- is passed whatever its bytes are, and the answer says that an analysis was performed.
pub office-by_type :
    (e : Environment) (filename file_type tmp_dir : Text)
    → detect_category e.unicode filename file_type ≡ office
    → mem_text (lower_extension e.unicode filename) office_extensions ≡ false
    → ((dispatch e filename file_type tmp_dir).performed ≡ true)
      × ((dispatch e filename file_type tmp_dir).passed ≡ true)
unfolding dispatch dispatch_as
office-by_type e filename file_type tmp_dir c other =
    (rw c refl, rw c (office_only e filename tmp_dir other))

-- The bytes of characters below 256 in UTF-16, as a shell link holds its strings.
abbrev pub utf16le : Text → Bytes
utf16le [] = []
utf16le (c ∷ s) = c ∷ 0 ∷ utf16le s

wide_strings : (s : Text) → Lnk.strings_from [] [] (utf16le s) ≡ []
unfolding Lnk.strings_from Lnk.flush Lnk.finish
wide_strings [] = refl
wide_strings (c ∷ s) = elim (Bool-cases (Lnk.is_printable c)) [
  | inl e ↦ rw (Lnk.strings_from, e) (wide_strings s)
  | inr e ↦ rw (Lnk.strings_from, e) (wide_strings s)
]

no_text-passed : (u : Unicode) → (Lnk.findings_of u []).passed ≡ true
unfolding Lnk.findings_of Lnk.check_cmdline Lnk.check_path Lnk.check_unc Lnk.note_target
    Lnk.extract_target_path to_lowercase contains
no_text-passed u = refl

-- A shell link whose bytes are those of a text in UTF-16 is passed, whatever the text says.
pub wide_link-passed : (u : Unicode) (s : Text) → (Lnk.analyze u (Lnk.content (utf16le s))).0 ≡ true
unfolding Lnk.analyze Lnk.extract_strings
wide_link-passed u s = elim (Bool-cases (Lnk.is_lnk (utf16le s))) [
  | inl e ↦ rw (e, wide_strings s) (no_text-passed u)
  | inr e ↦ rw e refl
]

-- The temporary file of an archive.
abbrev pub no_slash : ℕ → Bool
no_slash c = not (c == b'/')

sanitized :
    (alphanumeric : ℕ → Bool) (c : ℕ) → no_slash (Archive.sanitize_char alphanumeric c) ≡ true
unfolding Archive.sanitize_char Archive.is_ascii_alphanumeric
sanitized alphanumeric c = ground arith

sanitized_name :
    (alphanumeric : ℕ → Bool) (name : Text)
    → all no_slash (Archive.sanitize_filename alphanumeric name) ≡ true
unfolding Archive.sanitize_filename
sanitized_name alphanumeric [] = refl
sanitized_name alphanumeric (c ∷ name) =
    rw (sanitized alphanumeric c) (sanitized_name alphanumeric name)

-- What is written is at most one file, of a name without a slash, directly under the directory for
-- temporary files, and it is removed again but where the writing broke off.
pub tmp_file-removed :
    (u : Unicode) (alphanumeric : ℕ → Bool) (w : Archive.TmpWrite) (r : Archive.Readers)
    (filename tmp_dir : Text)
    → let actions = (Archive.analyze u alphanumeric w r filename tmp_dir).1 in
      (actions ≡ [])
      ⊎ ((name : Text) × (all no_slash name ≡ true)
          × (let path = tmp_dir ++ (codes "/" ++ name) in
              ((w ≡ Archive.broken_off) × (actions ≡ Archive.wrote path ∷ []))
              ⊎ (actions ≡ Archive.wrote path ∷ Archive.removed path ∷ [])))
unfolding Archive.analyze Archive.tmp_path
tmp_file-removed u alphanumeric Archive.not_created r filename tmp_dir = inl refl
tmp_file-removed u alphanumeric Archive.broken_off r filename tmp_dir = inr (
  codes "archive_" ++ Archive.sanitize_filename alphanumeric filename,
  sanitized_name alphanumeric filename,
  inl (refl, refl),
)
tmp_file-removed u alphanumeric Archive.written r filename tmp_dir = inr (
  codes "archive_" ++ Archive.sanitize_filename alphanumeric filename,
  sanitized_name alphanumeric filename,
  inr refl,
)

-- A file that is taken for a script and whose text can be read has a table of patterns, and is failed just
-- when its text has, in whatever case of the letters, one of them that blocks.
pub script-searched :
    (u : Unicode) (text filename file_type : Text)
    → detect_category u filename file_type ≡ script
    → (patterns : List Script.Pattern) × (Script.patterns_of (lower_extension u filename)
        ≡ some patterns)
      × (((Script.analyze u (Script.content text) filename).0 ≡ false)
          ↔ Some (Blocks u text) patterns)
script-searched u text filename file_type e =
    let (patterns, found) = script-has_patterns u filename file_type e in
    (patterns, found, script-verdict u text filename patterns found)
