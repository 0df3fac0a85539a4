-- ===== src/Analyze/Iso.antt =====
-- analyzers/iso.rs: the walk through the directories of an ISO 9660 image. Numbers that come from the
-- image are 32-bit, so that the sums and products of a 64-bit `usize` do not wrap.
use keysas.Base.{
  ℕ, zero, suc, ◌+◌, ◌-◌, ◌*◌, ◌/◌, ◌%◌, Bool, true, not, ◌&&◌, ◌||◌, Option, none, some, List, [],
  ◌∷◌, ◌++◌, Text, Bytes, codes, text_eq, mem_text, length, take, drop, is_empty, leb, ltb, split,
  join, decimal, to_lowercase, Unicode, ◌==◌, if◌then◌else◌,
}
use keysas.Analyze.Findings.{Verdict, Findings, no_findings, alert, inform, summary_of}

abbrev pub sector_size : ℕ
sector_size = 2048

abbrev pub max_depth : ℕ
max_depth = 8

abbrev pub max_files : ℕ
max_files = 4096

abbrev pub executable_exts : List Text
executable_exts =
    codes "exe"
    ∷ codes "dll"
    ∷ codes "msi"
    ∷ codes "com"
    ∷ codes "scr"
    ∷ codes "efi"
    ∷ codes "sys"
    ∷ codes "ocx"
    ∷ []

abbrev pub script_exts : List Text
script_exts =
    codes "ps1"
    ∷ codes "bat"
    ∷ codes "cmd"
    ∷ codes "vbs"
    ∷ codes "vbe"
    ∷ codes "js"
    ∷ codes "jse"
    ∷ codes "hta"
    ∷ codes "wsf"
    ∷ codes "wsh"
    ∷ []

abbrev pub installer_exts : List Text
installer_exts = codes "inf" ∷ codes "reg" ∷ []

-- `buf[i]`, where the code has made sure of the bound; 0 past the end.
abbrev pub byte_at : Bytes → ℕ → ℕ
byte_at buf i = elim (drop i buf) [ [] ↦ 0 | x ∷ _ ↦ x ]

-- `&buf[from..to]`
abbrev pub slice : Bytes → ℕ → ℕ → Bytes
slice buf from to = take (to - from) (drop from buf)

unfoldable pub read_u32_le : Bytes → ℕ → ℕ
read_u32_le buf offset =
    if ltb (length buf) (offset + 4)
    then 0
    else byte_at buf offset
      + 256 * byte_at buf (offset + 1)
      + 65536 * byte_at buf (offset + 2)
      + 16777216 * byte_at buf (offset + 3)

first_part : List Text → Text
first_part [] = []
first_part (p ∷ _) = p

-- `lossy` is `String::from_utf8_lossy`.
unfoldable pub entry_name : (Bytes → Text) → Unicode → Bytes → Text
unfolding first_part split to_lowercase
entry_name lossy u name_raw = to_lowercase u (first_part (split b';' (lossy name_raw)))

unfoldable pub full_path : Text → Text → Text
full_path prefix name = if is_empty prefix then name else prefix ++ b'/' ∷ name

-- What the loop makes of the place it is at: it stops, it goes on at a later place, with or without a
-- record, whose bytes it then reads.
pub data Place : Type 0 where
  stop : Place
  skip : ℕ → Place
  record_at : ℕ → Bytes → Place

unfoldable pub place : Bytes → ℕ → Place
place dir_data pos =
    let record_len = byte_at dir_data pos in
    let next = (pos / sector_size + 1) * sector_size in
    if not (ltb pos (length dir_data))
    then stop
    else if record_len == 0
    then (if leb (length dir_data) next then stop else skip next)
    else if ltb (length dir_data) (pos + record_len) || ltb record_len 34
    then stop
    else record_at (pos + record_len) (slice dir_data pos (pos + record_len))

-- An entry of a directory: a file by its path, or a directory with its extent.
pub data Entry : Type 0 where
  nothing : Entry
  file : Text → Entry
  directory : Text → ℕ → ℕ → Entry

-- `flags & 0x02`.
is_dir : Bytes → Bool
is_dir record_bytes = (byte_at record_bytes 25 / 2) % 2 == 1

unfoldable pub read_record : (Bytes → Text) → Unicode → Text → Bytes → Entry
unfolding entry_name full_path is_dir read_u32_le text_eq
read_record lossy u prefix record_bytes =
    let name_len = byte_at record_bytes 32 in
    let name_raw = slice record_bytes 33 (33 + name_len) in
    let path = full_path prefix (entry_name lossy u name_raw) in
    if ltb (length record_bytes) (33 + name_len)
    then nothing
    else if text_eq name_raw (0 ∷ []) || text_eq name_raw (1 ∷ [])
    then nothing
    else if is_dir record_bytes
    then directory path (read_u32_le record_bytes 2) (read_u32_le record_bytes 10)
    else file path

-- The loop of `walk_dir` over one directory, given the walk of a child. `fuel` bounds the rounds; `none` is
-- a loop that has not ended within them.
unfoldable pub walk_records :
    (ℕ → ℕ → Text → List Text → Option (List Text))
    → (Bytes → Text)
    → Unicode
    → Text
    → Bytes
    → ℕ
    → ℕ
    → List Text
    → Option (List Text)
walk_records child lossy u prefix dir_data zero pos files = none
walk_records child lossy u prefix dir_data (suc fuel) pos files = elim (place dir_data pos) [
  | stop ↦ some files
  | skip next ↦ walk_records child lossy u prefix dir_data fuel next files
  | record_at next record_bytes ↦ elim (read_record lossy u prefix record_bytes) [
    | nothing ↦ walk_records child lossy u prefix dir_data fuel next files
    | file path ↦ walk_records child lossy u prefix dir_data fuel next (files ++ path ∷ [])
    | directory path lba size ↦ elim (child lba size path files) [
      | none ↦ none
      | some more ↦ walk_records child lossy u prefix dir_data fuel next more
    ]
  ]
]

-- The bytes of a directory, none where it lies past the end of the image.
unfoldable pub dir_data : Bytes → ℕ → ℕ → Option Bytes
dir_data buf lba size =
    let offset = lba * sector_size in
    let end = if ltb (length buf) (offset + size) then length buf else offset + size in
    if leb (length buf) offset then none else some (slice buf offset end)

-- `levels` is how many levels may still be entered: 9 at the root, none below depth 8.
unfoldable pub walk_dir :
    (Bytes → Text) → Unicode → Bytes → ℕ → ℕ → ℕ → Text → List Text → Option (List Text)
unfolding walk_records dir_data place read_record
walk_dir lossy u buf zero lba size prefix files = some files
walk_dir lossy u buf (suc levels) lba size prefix files =
    if leb max_files (length files) then some files else elim (dir_data buf lba size) [
      | none ↦ some files
      | some bytes ↦
          walk_records (walk_dir lossy u buf levels) lossy u prefix bytes (suc (length bytes)) 0
            files
    ]

last_part : List Text → Text
last_part [] = []
last_part (p ∷ []) = p
last_part (p ∷ q ∷ ps) = last_part (q ∷ ps)

-- `f.rsplit('.').next()`, in lower case.
unfoldable pub path_extension : Unicode → Text → Text
unfolding last_part split to_lowercase
path_extension u f = to_lowercase u (last_part (split b'.' f))

pub record Sorted : Type 0 where
  pub executables : List Text
  pub scripts : List Text
  pub installers : List Text

unfoldable pub sort_file : Text → Text → Sorted → Sorted
unfolding mem_text
sort_file f ext s =
    if mem_text ext executable_exts
    then record s { executables = s.executables ++ f ∷ [] }
    else if mem_text ext script_exts
    then record s { scripts = s.scripts ++ f ∷ [] }
    else if mem_text ext installer_exts
    then record s { installers = s.installers ++ f ∷ [] }
    else s

unfoldable pub sort_files : Unicode → List Text → Sorted → Sorted
unfolding sort_file path_extension
sort_files u [] s = s
sort_files u (f ∷ files) s = sort_files u files (sort_file f (path_extension u f) s)

note_executables : List Text → Findings → Findings
unfolding decimal join
note_executables xs f =
    if is_empty xs
    then f
    else alert (decimal (length xs) ++ codes " executable(s): " ++ join (codes ", ") (take 3 xs)) f

note_scripts : List Text → Findings → Findings
unfolding decimal join
note_scripts xs f =
    if is_empty xs
    then f
    else alert (decimal (length xs) ++ codes " script(s): " ++ join (codes ", ") (take 3 xs)) f

note_installers : List Text → Findings → Findings
unfolding decimal
note_installers xs f =
    if is_empty xs then f else inform (decimal (length xs) ++ codes " installer file(s)") f

unfoldable pub findings_of : ℕ → Sorted → Findings
unfolding note_executables note_scripts note_installers decimal
findings_of total s = inform (decimal total ++ codes " file(s) in ISO") (
    note_installers s.installers
      (note_scripts s.scripts (note_executables s.executables no_findings)))

unfoldable pub build_summary : List Text → List Text → Text
unfolding summary_of
build_summary blocking info = summary_of (codes "no dangerous content") blocking info

-- The files of the image, `none` where the walk would not end.
unfoldable pub list_iso : (Bytes → Text) → Unicode → Bytes → Option (List Text)
unfolding walk_dir read_u32_le
list_iso lossy u buf =
    let pvd = drop (16 * sector_size) buf in
    walk_dir lossy u buf (suc max_depth) (read_u32_le pvd 158) (read_u32_le pvd 166) [] []

unfoldable pub is_iso_image : Bytes → Bool
unfolding text_eq
is_iso_image buf =
    let pvd = drop (16 * sector_size) buf in
    byte_at pvd 0 == 1 && text_eq (slice pvd 1 6) (codes "CD001")

-- The verdict on the files; a walk that does not end gives none, so nothing stands for it here.
unfoldable pub walked : Unicode → Option (List Text) → Verdict
unfolding sort_files findings_of build_summary
walked u none = (true, [])
walked u (some files) =
    let f =
      findings_of (length files)
        (sort_files u files (record { executables = []; scripts = []; installers = [] })) in
    (f.passed, build_summary f.blocking f.info)

unfoldable pub analyze : (Bytes → Text) → Unicode → Option Bytes → Verdict
unfolding list_iso walked is_iso_image
analyze lossy u none = (true, codes "read error - analysis skipped")
analyze lossy u (some buf) =
    if ltb (length buf) (16 * sector_size + 190)
    then (true, codes "too small to be a valid ISO")
    else if not (is_iso_image buf)
    then (true, codes "not a valid ISO 9660 image")
    else walked u (list_iso lossy u buf)
