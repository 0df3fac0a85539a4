-- ===== src/Analyze/Examples.antt =====
-- Files of each kind that are failed or passed by the analyzers.
use keysas.Base.{
  ℕ, zero, suc, ◌≡◌, ap, ◌==◌, ◌&&◌, text_eq, ◌↔◌, refl, true, false, Option, none, some, List, [],
  ◌∷◌, ◌++◌, Text, Bytes, codes, Unicode, Some, length, drop, ltb, ◌+◌, arith, ◌*◌, contains,
  if◌then◌else◌,
}
use keysas.Base.Daemon.{received_fds, scm_rights}
use keysas.Analyze.Category.{detect_category}
use keysas.Analyze.Daemon.{AnalyzeRequest, AnalyzeResponse, Environment, dispatch, Turn, turn}
use keysas.Analyze.Verdicts.{Has}
use keysas.Analyze.Keywords.{pdf-verdict}
use keysas.Analyze.Walk.{Ends, list_iso-Ends, image-verdict, IsDangerous}
use keysas.Analyze.Scan.{IsBadZip, zip-verdict}
use keysas.Analyze.Answers.{utf16le}
use keysas.Analyze.Replies.{IsReply, turn-IsReply}
use keysas.Analyze.Script
use keysas.Analyze.Pdf
use keysas.Analyze.Lnk
use keysas.Analyze.Iso
use keysas.Analyze.Pe
use keysas.Analyze.Archive

abbrev ascii : Unicode
ascii = λ _ c _. c ∷ []

abbrev script_text : Text
script_text = codes "x = EVAL(y)"

-- It is failed, by `eval(`.
eval-is_found : (Script.analyze ascii (Script.content script_text) (codes "a.js")).0 ≡ false
unfolding Script.analyze
eval-is_found = refl

abbrev pdf_bytes : Bytes
pdf_bytes = codes "%PDF-1.7 /OpenAction /JS /JS"

pdf-verdict_example :
    ((Pdf.analyze (some pdf_bytes)).0 ≡ false) ↔ Some (Has pdf_bytes) Pdf.blocking_keywords
pdf-verdict_example = pdf-verdict pdf_bytes

pdf-is_failed : (Pdf.analyze (some pdf_bytes)).0 ≡ false
unfolding Pdf.analyze Pdf.count_occurrences
pdf-is_failed = refl

abbrev bytes_of : ℕ → List ℕ → List ℕ
bytes_of zero rest = rest
bytes_of (suc n) rest = 1 ∷ bytes_of n rest

abbrev link_bytes : Bytes
link_bytes = 0x4c ∷ 0 ∷ 0 ∷ 0 ∷ bytes_of 72 (codes "C:\\Windows\\cmd.exe")

link-is_failed : (Lnk.analyze ascii (Lnk.content link_bytes)).0 ≡ false
unfolding Lnk.analyze Lnk.extract_target_path contains
link-is_failed = refl

abbrev wide : Text
wide = 0x4c ∷ 0 ∷ bytes_of 40 (codes "powershell")

wide-is_lnk : Lnk.is_lnk (utf16le wide) ≡ true
unfolding Lnk.is_lnk
wide-is_lnk = refl

-- A directory with one file, `A.EXE`, in a record of 38 bytes.
abbrev record_bytes : Bytes
record_bytes = 38 ∷ bytes_of 24 (0 ∷ bytes_of 6 (5 ∷ codes "A.EXE"))

walk-finds_file :
    Iso.walk_records (λ lba size path files. some files) (λ b. b) ascii [] record_bytes 39 0 []
    ≡ some (codes "a.exe" ∷ [])
unfolding Iso.walk_records Iso.place Iso.read_record
walk-finds_file = refl

length-bytes_of : (n : ℕ) (rest : Bytes) → length (bytes_of n rest) ≡ n + length rest
length-bytes_of zero rest = omega arith
length-bytes_of (suc n) rest = omega (arith, length-bytes_of n rest)

drop-bytes_of : (n : ℕ) (rest : Bytes) → drop n (bytes_of n rest) ≡ rest
drop-bytes_of zero rest = refl
drop-bytes_of (suc n) rest = drop-bytes_of n rest

-- An image whose root directory lies past its end.
abbrev descriptor : Bytes
descriptor = 1 ∷ (codes "CD001" ++ bytes_of 184 [])

abbrev image : Bytes
image = bytes_of (16 * Iso.sector_size) descriptor

image-is_large : ltb (length image) (16 * Iso.sector_size + 190) ≡ false
image-is_large = let l = length-bytes_of (16 * Iso.sector_size) descriptor in ground arith

image-is_iso : Iso.is_iso_image image ≡ true
unfolding Iso.is_iso_image
image-is_iso =
    ap (λ pvd. (Iso.byte_at pvd 0 == 1) && text_eq (Iso.slice pvd 1 6) (codes "CD001"))
      (drop-bytes_of (16 * Iso.sector_size) descriptor)

list_iso-Ends_example : Ends (Iso.list_iso (λ b. b) ascii image)
list_iso-Ends_example = list_iso-Ends (λ b. b) ascii image

image-verdict_example :
    (files : List Text) × (Iso.list_iso (λ b. b) ascii image ≡ some files)
    × (((Iso.analyze (λ b. b) ascii (some image)).0 ≡ false) ↔ Some (IsDangerous ascii) files)
image-verdict_example = image-verdict (λ b. b) ascii image image-is_large image-is_iso

-- A ZIP with a JAR's class in it, whose magic number is also that of a Mach-O binary.
abbrev class_entry : Archive.ZipEntry
class_entry = record {
  raw = some (record { is_dir = false; encrypted = false; name = codes "Main.class" });
  open_entry = some (record {
    name = codes "Main.class";
    head = some (0xca ∷ 0xfe ∷ 0xba ∷ 0xbe ∷ 0 ∷ 0 ∷ 0 ∷ 0x41 ∷ []);
  });
}

zip-verdict_example :
    ((Archive.analyze_zip ascii (Archive.entries (class_entry ∷ []))).0 ≡ false)
    ↔ Some (IsBadZip ascii) (class_entry ∷ [])
zip-verdict_example = zip-verdict ascii (class_entry ∷ [])

class-is_failed : (Archive.analyze_zip ascii (Archive.entries (class_entry ∷ []))).0 ≡ false
unfolding Archive.analyze_zip
class-is_failed = refl

abbrev toy_float : Pe.Float
toy_float = record {
  F = ℕ;
  of_nat = λ n. n;
  add = λ a b. a + b;
  mul = λ a b. a * b;
  div = λ a b. a;
  neg = λ a. a;
  log2 = λ a. a;
  above_7_2 = λ a. false;
  above_6_5 = λ a. false;
  show = λ a. [];
}

abbrev no_readers : Archive.Readers
no_readers = record {
  zip = Archive.entries (class_entry ∷ []);
  tar = Archive.entries [];
  tar_gz = Archive.entries [];
  tar_bz2 = Archive.entries [];
  tar_xz = Archive.entries [];
  gz = Archive.decoded none;
  bz2 = Archive.decoded none;
  xz = Archive.decoded none;
}

abbrev readable : Environment
readable = record {
  unicode = ascii;
  alphanumeric = λ c. false;
  lossy = λ b. b;
  float = toy_float;
  parse_pe = λ b. none;
  parse_zip = λ b. none;
  parse_cfb = λ b. none;
  read_fd = some pdf_bytes;
  script_file = Script.content script_text;
  lnk_file = Lnk.content link_bytes;
  tmp_write = Archive.written;
  readers = no_readers;
}

abbrev unreadable : Environment
unreadable = record readable {
  read_fd = none;
  script_file = Script.read_failed;
  lnk_file = Lnk.dup_failed;
  tmp_write = Archive.broken_off;
}

abbrev request : AnalyzeRequest
request = record { filename = codes "a.pdf"; file_type = [] }

abbrev decode : Bytes → Option AnalyzeRequest
decode b = some request

abbrev encode : AnalyzeResponse → Option Bytes
encode r = if r.passed then some (1 ∷ []) else some (0 ∷ [])

abbrev request_turn : Turn
request_turn = record {
  accepted = true;
  received = some (1 ∷ []);
  messages = some (scm_rights (5 ∷ [])) ∷ [];
}

turn-IsReply_example :
    IsReply decode encode readable []
      (received_fds request_turn.messages)
      (1 ∷ [])
      (turn decode encode readable [] request_turn)
turn-IsReply_example = turn-IsReply decode encode readable [] request_turn (1 ∷ []) refl refl refl

request-is_failed :
    turn decode encode readable [] request_turn ≡ record { sent = some (0 ∷ []); closed = 5 ∷ [] }
unfolding turn dispatch Pdf.count_occurrences detect_category
request-is_failed = refl
