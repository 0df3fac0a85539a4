-- ===== src/In/Examples.antt =====
-- An incoming directory with a damaged file, a hidden one, and one that cannot be opened.
use keysas.Base.{
  ◌≡◌, refl, true, false, not, Option, none, some, List, [], ◌∷◌, Text, Bytes, codes, text_eq,
  mem_text, retain, file_name, extension, if◌then◌else◌, arith,
}
use keysas.In.{FileMetadata, is_file, report_of, is_corrupted, Probe, In, send_files, is_hidden}
use keysas.In.Send.{IsLoop, send_files-IsLoop}
use keysas.In.Reports.{report-lost}

abbrev encode : FileMetadata → Option Bytes
encode m = some m.filename

abbrev probe : Probe
probe = record {
  started = [];
  hashed = [];
  sized = [];
  verified = [];
  opened = some 7;
  digest = some (codes "d");
  timestamp = [];
  removes = true;
  sends = true;
  unlinks = true;
}

abbrev probe_of : Text → Probe
probe_of f = if text_eq f (codes "c") then record probe { opened = none } else probe

abbrev incoming : In
incoming = record {
  dir = codes "a" ∷ codes "a.ioerror" ∷ codes ".b" ∷ codes "c" ∷ [];
  calls = [];
  messages = [];
}

abbrev names : List Text
names = codes "a" ∷ codes ".b" ∷ codes "c" ∷ []

send_files-IsLoop_example :
    IsLoop encode probe_of
      (retain (λ x. not (is_hidden x)) names)
      incoming
      (send_files encode probe_of names incoming).1
send_files-IsLoop_example = send_files-IsLoop encode probe_of names incoming

-- The damaged file is sent and gone with its report, the hidden one and the one that cannot be opened stay.
round-leaves : (send_files encode probe_of names incoming).1.dir ≡ codes ".b" ∷ codes "c" ∷ []
unfolding send_files is_corrupted is_hidden
round-leaves = refl

-- The report is in the listing too.
abbrev broken : Text → Probe
broken f = record probe { sends = false }

report-lost_example :
    let files = codes "a.ioerror" ∷ codes "c" ∷ [] in
    let r = send_files encode broken (codes "a" ∷ files) incoming in
    (is_corrupted incoming.dir (codes "a") ≡ true)
    × (r.0 ≡ false)
    × (is_file r.1.dir (codes "a") ≡ true)
    × (is_corrupted r.1.dir (codes "a") ≡ false)
unfolding file_name is_hidden extension report_of mem_text
report-lost_example =
    report-lost encode broken 7 (codes "d") (codes "a") (codes "a.ioerror" ∷ codes "c" ∷ [])
      incoming (refl, refl, refl, refl) refl refl (λ e. ground arith) refl refl
