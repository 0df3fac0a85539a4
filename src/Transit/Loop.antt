-- ===== src/Transit/Loop.antt =====
-- The loops of the daemon: over the files it checks and over the files it sends.
use keysas.Base.{
  ℕ, suc, ◌+◌, ◌<◌, ◌≡◌, sym, ap, ◌∙◌, Bool, true, false, Option, some, List, [], ◌∷◌, ◌++◌, map,
  Text, Bytes, Unicode, length, All, arith, inl, inr,
}
use mathlib.Core.Path.{ap₂}
use keysas.Base.Daemon.{live}
use keysas.Base.Daemon.Process.{>>=-eq-live, Live-cases}
use keysas.Progress.{DaemonProgress}
use keysas.Transit.Metadata.{FileMetadata, FileData, Configuration}
use keysas.Transit.FileType.{Kind}
use keysas.Transit.Check.{
  Probes, check_digest, check_size, check_antivirus, check_yara, check_file_type, check_specialized,
  check_virustotal, run_checks, check_file, check_files,
}
use keysas.Transit.Relay.{send_files}

-- What the checks leave alone of a file.
pub record Identity : Type 0 where
  pub fd : ℕ
  pub filename : Text
  pub digest : Text
  pub timestamp : Text
  pub is_corrupted : Bool

abbrev pub identity : FileData → Identity
identity f = record {
  fd = f.fd;
  filename = f.md.filename;
  digest = f.md.digest;
  timestamp = f.md.timestamp;
  is_corrupted = f.md.is_corrupted;
}

abbrev pub label : ℕ → FileMetadata → Identity
label fd md = identity (record { fd = fd; md = md })

module _ (fd : ℕ) (e : Probes) (conf : Configuration) (md : FileMetadata) where
  label-digest : label fd (check_digest e md) ≡ label fd md
  unfolding check_digest
  label-digest = ground arith

  label-size : label fd (check_size e conf md) ≡ label fd md
  unfolding check_size
  label-size = ground arith

  label-antivirus : label fd (check_antivirus e md) ≡ label fd md
  unfolding check_antivirus
  label-antivirus = ground arith

  label-yara : label fd (check_yara e conf md) ≡ label fd md
  unfolding check_yara
  label-yara = ground arith

  label-file_type :
      (get : Bytes → Option Kind) (u : Unicode)
      → label fd (check_file_type get u e conf md) ≡ label fd md
  unfolding check_file_type
  label-file_type get u = ground arith

  label-specialized :
      (out : FileMetadata) → check_specialized e conf md ≡ live out → label fd out ≡ label fd md
  unfolding check_specialized
  label-specialized out h = ground arith

  label-virustotal : label fd (check_virustotal e conf md) ≡ label fd md
  unfolding check_virustotal
  label-virustotal = ground arith

module _ (get : Bytes → Option Kind) (u : Unicode) (conf : Configuration) where
  -- The metadata before the optional services.
  abbrev before_services : Probes → FileMetadata → FileMetadata
  before_services e md =
      check_file_type get u e conf
        (check_yara e conf (check_antivirus e (check_size e conf (check_digest e md))))

  run_checks-last :
      (e : Probes) (md out : FileMetadata)
      → run_checks get u e conf md ≡ live out
      → (m : FileMetadata) × (check_specialized e conf (before_services e md) ≡ live m)
        × (out ≡ check_virustotal e conf m)
  unfolding run_checks
  run_checks-last e md out h = elim (Live-cases (check_specialized e conf (before_services e md))) [
    | inl n ↦ ground arith
    | inr (m, s) ↦ (m, s, ground arith)
  ]

  pub run_checks-label :
      (fd : ℕ) (e : Probes) (md out : FileMetadata)
      → run_checks get u e conf md ≡ live out
      → label fd out ≡ label fd md
  run_checks-label fd e md out h =
      let m1 = check_digest e md in
      let m2 = check_size e conf m1 in
      let m3 = check_antivirus e m2 in
      let m4 = check_yara e conf m3 in
      let (m, hm, o) = run_checks-last e md out h in
      ap (label fd) o
      ∙ label-virustotal fd e conf m
      ∙ label-specialized fd e conf (before_services e md) m hm
      ∙ label-file_type fd e conf m4 get u
      ∙ label-yara fd e conf m3
      ∙ label-antivirus fd e conf m2
      ∙ label-size fd e conf m1
      ∙ label-digest fd e conf md

  check_file-identity :
      (e : Probes) (p : DaemonProgress) (f : FileData) (out : DaemonProgress × FileData)
      → check_file get u e conf p f ≡ live out
      → identity out.1 ≡ identity f
  unfolding check_file
  check_file-identity e p f out h =
      let (md, hm, h1) = >>=-eq-live (run_checks get u e conf f.md) _ h in
      let e1 : label f.fd md ≡ identity f = run_checks-label f.fd e f.md md hm in
      let e2 : record f { md = md } ≡ out.1 = cc h1 in ap identity (sym e2) ∙ e1

  -- Checking keeps the number and the order of the files, and of each its descriptor, name, digest,
  -- timestamp and corruption mark.
  pub check_files-identity :
      (env : ℕ → Probes) (i : ℕ) (p p' : DaemonProgress) (files out : List FileData)
      → check_files get u env conf i p files ≡ live (p', out)
      → map identity out ≡ map identity files
  unfolding check_files
  check_files-identity env i p p' [] out h = ground arith
  check_files-identity env i p p' (f ∷ files) out h =
      let (c, hc, h1) = >>=-eq-live (check_file get u (env i) conf p f) _ h in
      let (r, hr, h2) = >>=-eq-live (check_files get u env conf (i + 1) c.0 files) _ h1 in
      let e1 : identity c.1 ≡ identity f = check_file-identity (env i) p f c hc in
      let e2 : map identity r.1 ≡ map identity files =
        check_files-identity env (i + 1) c.0 r.0 files r.1 hr in
      let e3 : c.1 ∷ r.1 ≡ out = cc h2 in ap (map identity) (sym e3) ∙ ap₂ (λ a l. a ∷ l) e1 e2

  -- A file is checked to the end whenever its descriptor can be duplicated and rewound, whatever the
  -- digest, the scanners and the services answer or fail to answer.
  pub run_checks-live :
      (e : Probes) (md : FileMetadata) (nfd : ℕ)
      → e.dup2 ≡ some nfd
      → ((k : ℕ) → e.rewind k ≡ true)
      → (out : FileMetadata) × (run_checks get u e conf md ≡ live out)
  unfolding run_checks check_specialized
  run_checks-live e md nfd d r = elim (Live-cases (run_checks get u e conf md)) [
    | inl n ↦ absurd (ground (arith, r 0, r 1, r 2, r 3, r 4, r 5, r 6))
    | inr (out, s) ↦ (out, s)
  ]

-- The files of a batch whose sends succeed are sent in order, each with its own descriptor, and their
-- descriptors are closed. Where the next send fails, its descriptor is closed, nothing after it is sent
-- or closed, and the connection is given up.
pub send_files-fails :
    (encode : FileMetadata → Option Bytes) (sends : ℕ → Bool) (i k : ℕ)
    (before : List (Bytes × FileData)) (f : FileData) (bytes : Bytes) (later : List FileData)
    → All (λ b. encode b.1.md ≡ some b.0) before
    → encode f.md ≡ some bytes
    → ((n : ℕ) → n < length before → sends (i + n) ≡ true)
    → k ≡ i + length before
    → sends k ≡ false
    → send_files encode sends i (map (λ b. b.1) before ++ f ∷ later)
      ≡ live (record {
        messages = map (λ b. (b.0, b.1.fd)) before;
        closed = map (λ b. b.1.fd) before ++ f.fd ∷ [];
        connected = false;
      })
unfolding send_files
send_files-fails encode sends i k [] f bytes later hb hf hs hk hn =
    let e : sends i ≡ false = ap sends (omega arith) ∙ hn in rw (hf, e)
send_files-fails encode sends i k (b ∷ before) f bytes later hb hf hs hk hn =
    let first : sends i ≡ true = ap sends (omega arith) ∙ hs 0 (omega arith) in
    let rest =
      send_files-fails encode sends (i + 1) k before f bytes later hb.1 hf
        (λ n l. ap sends (omega arith) ∙ hs (suc n) (omega arith)) (omega arith) hn in
    rw (hb.0, first, rest)
