-- ===== src/Analyze/Archive.antt =====
-- analyzers/archive.rs: the search for encrypted and executable entries. What the crates zip, tar, flate2,
-- bzip2 and xz2 read of the file is a parameter.
use keysas.Base.{
  ℕ, Bool, true, false, not, ◌&&◌, ◌||◌, Option, none, some, List, [], ◌∷◌, ◌++◌, map, Text, Bytes,
  codes, text_eq, mem_text, length, take, leb, ltb, starts_with, ends_with, to_lowercase, Unicode,
  ◌==◌, if◌then◌else◌,
}
use keysas.Analyze.Findings.{Verdict}
use keysas.Analyze.Category.{lower_extension}

abbrev pub exec_magic : List (Bytes × Text)
exec_magic =
    (0x7f ∷ codes "ELF", codes "ELF executable")
    ∷ (codes "MZ", codes "PE/DOS executable")
    ∷ (0xca ∷ 0xfe ∷ 0xba ∷ 0xbe ∷ [], codes "Mach-O fat binary")
    ∷ (0xfe ∷ 0xed ∷ 0xfa ∷ 0xce ∷ [], codes "Mach-O 32-bit BE")
    ∷ (0xfe ∷ 0xed ∷ 0xfa ∷ 0xcf ∷ [], codes "Mach-O 64-bit BE")
    ∷ (0xce ∷ 0xfa ∷ 0xed ∷ 0xfe ∷ [], codes "Mach-O 32-bit LE")
    ∷ (0xcf ∷ 0xfa ∷ 0xed ∷ 0xfe ∷ [], codes "Mach-O 64-bit LE")
    ∷ []

abbrev pub exec_extensions : List Text
exec_extensions =
    codes "exe"
    ∷ codes "dll"
    ∷ codes "com"
    ∷ codes "efi"
    ∷ codes "msi"
    ∷ codes "scr"
    ∷ codes "pif"
    ∷ codes "elf"
    ∷ codes "so"
    ∷ codes "dylib"
    ∷ codes "bat"
    ∷ codes "cmd"
    ∷ codes "ps1"
    ∷ codes "vbs"
    ∷ codes "vbe"
    ∷ codes "hta"
    ∷ []

unfoldable pub first_magic : List (Bytes × Text) → Bytes → Option Text
unfolding starts_with
first_magic [] buf = none
first_magic ((magic, desc) ∷ rest) buf =
    let later = first_magic rest buf in if starts_with buf magic then some desc else later

unfoldable pub is_executable_magic : Bytes → Option Text
unfolding first_magic
is_executable_magic buf = first_magic exec_magic buf

unfoldable pub has_exec_extension : Unicode → Text → Bool
unfolding lower_extension mem_text
has_exec_extension u name = mem_text (lower_extension u name) exec_extensions

-- An entry of a ZIP: what `by_index_raw` and `by_index` give, none on an error. `head` is what one read
-- into eight bytes gives.
pub record RawEntry : Type 0 where
  pub is_dir : Bool
  pub encrypted : Bool
  pub name : Text

pub record OpenEntry : Type 0 where
  pub name : Text
  pub head : Option Bytes

pub record ZipEntry : Type 0 where
  pub raw : Option RawEntry
  pub open_entry : Option OpenEntry

-- Opening the file and its archive, each of which may fail with an error's text.
pub data Archive (E : Type 0) : Type 0 where
  cannot_open cannot_parse : Text → Archive E
  entries : List E → Archive E

-- What one entry says of the whole: none where the loop goes on.
unfoldable pub by_content : Text → Text → Option Bytes → Option Verdict
unfolding is_executable_magic
by_content name text none = none
by_content name text (some head) = elim (is_executable_magic (take 8 head)) [
  | none ↦ none
  | some desc ↦ some (false, text ++ desc ++ codes "): " ++ name)
]

unfoldable pub zip_content : Option OpenEntry → Option Verdict
unfolding by_content
zip_content none = none
zip_content (some e) = by_content e.name (codes "executable content (") e.head

unfoldable pub zip_raw : Unicode → Option OpenEntry → RawEntry → Option Verdict
unfolding zip_content has_exec_extension
zip_raw u opened raw =
    if raw.is_dir
    then none
    else if raw.encrypted
    then some (false, codes "encrypted entry: " ++ raw.name)
    else if has_exec_extension u raw.name
    then some (false, codes "executable by extension: " ++ raw.name)
    else zip_content opened

unfoldable pub zip_entry : Unicode → ZipEntry → Option Verdict
unfolding zip_raw
zip_entry u e = elim e.raw [ none ↦ none | some raw ↦ zip_raw u e.open_entry raw ]

-- The loop over the entries: the first verdict is returned.
unfoldable pub first_verdict {ℓ} : {E : Type ℓ} → (E → Option Verdict) → Text → List E → Verdict
first_verdict entry nothing [] = (true, nothing)
first_verdict entry nothing (e ∷ es) =
    let rest = first_verdict entry nothing es in elim (entry e) [ none ↦ rest | some v ↦ v ]

unfoldable pub analyze_zip : Unicode → Archive ZipEntry → Verdict
unfolding zip_entry first_verdict
analyze_zip u (cannot_open e) = (true, codes "cannot open archive: " ++ e)
analyze_zip u (cannot_parse e) = (true, codes "cannot parse ZIP: " ++ e)
analyze_zip u (entries es) =
    first_verdict (zip_entry u) (codes "no encrypted or executable content") es

-- An entry of a TAR stream: an error, or an entry with its type, path and first bytes.
pub record TarFile : Type 0 where
  pub regular : Bool  -- `Regular` or `Continuous`
  pub path : Text
  pub head : Option Bytes

unfoldable pub tar_file : Unicode → TarFile → Option Verdict
unfolding by_content has_exec_extension
tar_file u e =
    if not e.regular
    then none
    else if has_exec_extension u e.path
    then some (false, codes "executable by extension: " ++ e.path)
    else by_content e.path (codes "executable content (") e.head

unfoldable pub tar_entry : Unicode → Option TarFile → Option Verdict
unfolding tar_file
tar_entry u none = none
tar_entry u (some e) = tar_file u e

unfoldable pub analyze_tar_stream : Unicode → Text → Archive (Option TarFile) → Verdict
unfolding tar_entry first_verdict
analyze_tar_stream u cannot (cannot_open e) = (true, cannot ++ e)
analyze_tar_stream u cannot (cannot_parse e) = (true, codes "cannot read TAR entries: " ++ e)
analyze_tar_stream u cannot (entries es) =
    first_verdict (tar_entry u) (codes "no executable content") es

-- A single compressed file: opened or not, and what the first read of the decoder gives.
pub data Single : Type 0 where
  cannot_open : Text → Single
  decoded : Option Bytes → Single

unfoldable pub check_decompressed_magic : Text → Option Bytes → Verdict
unfolding is_executable_magic
check_decompressed_magic fmt none = (true, codes "no executable content")
check_decompressed_magic fmt (some head) =
    if leb 2 (length (take 8 head))
    then elim (is_executable_magic (take 8 head)) [
      | none ↦ (true, codes "no executable content")
      | some desc ↦
          (false, codes "executable after " ++ fmt ++ codes " decompression (" ++ desc ++ codes ")")
    ]
    else (true, codes "no executable content")

unfoldable pub analyze_single : Text → Single → Verdict
unfolding check_decompressed_magic
analyze_single fmt (Single.cannot_open e) = (true, codes "cannot open " ++ fmt ++ codes ": " ++ e)
analyze_single fmt (decoded head) = check_decompressed_magic fmt head

-- The file as each of the readers sees it.
pub record Readers : Type 0 where
  pub zip : Archive ZipEntry
  pub tar : Archive (Option TarFile)
  pub tar_gz : Archive (Option TarFile)
  pub tar_bz2 : Archive (Option TarFile)
  pub tar_xz : Archive (Option TarFile)
  pub gz : Single
  pub bz2 : Single
  pub xz : Single

-- The tests on the lowercase name, in order.
unfoldable pub analyze_path : Unicode → Readers → Text → Verdict
unfolding analyze_zip analyze_tar_stream analyze_single ends_with to_lowercase text_eq
analyze_path u r filename =
    let name = to_lowercase u filename in
    if ends_with name (codes ".tar.gz") || ends_with name (codes ".tgz")
    then analyze_tar_stream u (codes "cannot open TAR.GZ: ") r.tar_gz
    else if ends_with name (codes ".tar.bz2") || ends_with name (codes ".tbz2")
    then analyze_tar_stream u (codes "cannot open TAR.BZ2: ") r.tar_bz2
    else if ends_with name (codes ".tar.xz") || ends_with name (codes ".txz")
    then analyze_tar_stream u (codes "cannot open TAR.XZ: ") r.tar_xz
    else if ends_with name (codes ".tar")
    then analyze_tar_stream u (codes "cannot open TAR: ") r.tar
    else if ends_with name (codes ".gz")
    then analyze_single (codes "GZ") r.gz
    else if ends_with name (codes ".bz2")
    then analyze_single (codes "BZ2") r.bz2
    else if ends_with name (codes ".xz")
    then analyze_single (codes "XZ") r.xz
    else analyze_zip u r.zip

unfoldable pub is_ascii_alphanumeric : ℕ → Bool
is_ascii_alphanumeric c =
    (leb 48 c && leb c 57) || ((leb 65 c && leb c 90) || (leb 97 c && leb c 122))

-- `alphanumeric` is `char::is_alphanumeric` outside ASCII, from the Unicode tables.
unfoldable pub sanitize_char : (ℕ → Bool) → ℕ → ℕ
unfolding is_ascii_alphanumeric
sanitize_char alphanumeric c =
    if (if ltb c 128 then is_ascii_alphanumeric c else alphanumeric c) || c == b'.' then c else b'_'

unfoldable pub sanitize_filename : (ℕ → Bool) → Text → Text
unfolding sanitize_char
sanitize_filename alphanumeric name = map (sanitize_char alphanumeric) name

unfoldable pub tmp_path : (ℕ → Bool) → Text → Text → Text
unfolding sanitize_filename
tmp_path alphanumeric tmp_dir filename =
    tmp_dir ++ (codes "/archive_" ++ sanitize_filename alphanumeric filename)

-- What is done to the temporary file.
pub data TmpAction : Type 0 where
  wrote removed : Text → TmpAction

-- How `write_fd_to_tmp` goes: it fails before the file is created or while it is written, or succeeds.
pub data TmpWrite : Type 0 where
  not_created broken_off written : TmpWrite

abbrev skipped : Verdict
skipped = (true, codes "temp file write failed — analysis skipped")

unfoldable pub analyze :
    Unicode → (ℕ → Bool) → TmpWrite → Readers → Text → Text → Verdict × List TmpAction
unfolding analyze_path tmp_path
analyze u alphanumeric not_created r filename tmp_dir = (skipped, [])
analyze u alphanumeric broken_off r filename tmp_dir =
    (skipped, wrote (tmp_path alphanumeric tmp_dir filename) ∷ [])
analyze u alphanumeric written r filename tmp_dir =
    let path = tmp_path alphanumeric tmp_dir filename in
    (analyze_path u r filename, wrote path ∷ removed path ∷ [])
