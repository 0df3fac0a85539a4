-- ===== src/Pipeline.antt =====
-- keysas-transit's metadata (keysas-core/src/keysas-transit/main.rs) as keysas-out reads it
-- (keysas_lib/src/file_report.rs), and the two daemons' decisions together.
mod Examples
use keysas.Base.{
  ◌≡◌, ◌↔◌, refl, sym, ap, ◌∙◌, Bool, true, false, not, ◌&&◌, ◌||◌, Option, Text, Bytes, Unicode,
  text_eq, text_eq_iff, if◌then◌else◌, arith,
}
use keysas.Base.Daemon.{Live, live}
use keysas.Report.{FileMetadata}
use keysas.Out.{is_accepted, recheck}
use keysas.Out
use keysas.Transit.FileType.{Kind}
use keysas.Transit.Check.{Probes, passed, run_checks}
use keysas.Transit.Stages.{IsFresh}
use keysas.Transit.Verdict.{IsClean, passed-iff_IsClean}
use keysas.Transit.Loop.{Identity, label, run_checks-label}
use keysas.Transit.Metadata

-- The two structs have the same fields in the same order, so that bincode reads as the one what it wrote
-- of the other.
unfoldable pub received : Metadata.FileMetadata → FileMetadata
received m = record {
  filename = m.filename;
  digest = m.digest;
  is_digest_ok = m.is_digest_ok;
  is_toobig = m.is_toobig;
  size = m.size;
  is_type_allowed = m.is_type_allowed;
  av_pass = m.av_pass;
  av_report = m.av_report;
  yara_pass = m.yara_pass;
  yara_report = m.yara_report;
  timestamp = m.timestamp;
  is_corrupted = m.is_corrupted;
  file_type = m.file_type;
  specialized_pass = m.specialized_pass;
  specialized_analyzer = m.specialized_analyzer;
  specialized_summary = m.specialized_summary;
  vt_pass = m.vt_pass;
  vt_detections = m.vt_detections;
  vt_summary = m.vt_summary;
}

accepted-passed :
    (conf : Out.Configuration) (d : Text) (m : Metadata.FileMetadata)
    → conf.yara_clean ≡ true
    → (is_accepted conf (recheck d (received m)) ≡ true)
      ↔ ((passed m ≡ true) × (d ≡ m.digest) × (m.is_corrupted ≡ false))
unfolding is_accepted recheck received passed
accepted-passed conf d m y = ground (arith, text_eq_iff d m.digest)

-- With `yara_clean` on, keysas-out accepts a file, of which it computes the digest `d`, from the metadata
-- that keysas-transit made of it after checks that all ran on a fresh file, exactly when the file is
-- clean, its digest is still the one that was announced, and keysas-in has not marked it as corrupted.
pub accepted-iff_IsClean :
    (get : Bytes → Option Kind) (u : Unicode) (e : Probes) (transit : Metadata.Configuration)
    (conf : Out.Configuration) (d : Text) (md out : Metadata.FileMetadata)
    → IsFresh md
    → run_checks get u e transit md ≡ live out
    → conf.yara_clean ≡ true
    → (is_accepted conf (recheck d (received out)) ≡ true) ↔ (
        IsClean get u e transit md.filename md.digest × (d ≡ md.digest) × (md.is_corrupted ≡ false))
accepted-iff_IsClean get u e transit conf d md out f h y =
    let same = run_checks-label get u transit 0 e md out h in
    let digest : out.digest ≡ md.digest = ap (λ i. i.digest) same in
    let corrupted : out.is_corrupted ≡ md.is_corrupted = ap (λ i. i.is_corrupted) same in
    let both = accepted-passed conf d out y in
    let clean = passed-iff_IsClean get u e transit md out f h in
    (
      (λ a. let (p, ed, c) = both.0 a in (clean.0 p, ed ∙ digest, sym corrupted ∙ c)),
      (λ (k, ed, c). both.1 (clean.1 k, ed ∙ sym digest, corrupted ∙ c)),
    )
