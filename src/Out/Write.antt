-- ===== src/Out/Write.antt =====
-- What `output_file` leaves in the output directory.
use keysas.Base.{
  ◌<◌, ◌≡◌, ◌≢◌, inl, inr, refl, ap, ◌∙◌, Bool, false, Option, some, [], ◌∷◌, ◌++◌, Text, codes,
  text_eq_iff, length, length-append, Result, ok, err, Option-cases, Bool-cases, arith,
}
use keysas.Signing.{Crypto}
use keysas.Report.{
  FileMetadata, Report, Json, HybridKeyPair, generate_report_metadata, bind_and_sign,
}
use keysas.Out.{
  FileData, Configuration, Sas, store, Probes, report_path, output_path, is_accepted, recheck,
  write_report, first_report, then_output, write_both, write_signed, output_file,
}

pub filename-recheck : (d : Text) (md : FileMetadata) → (recheck d md).filename ≡ md.filename
unfolding recheck
filename-recheck d md = ground arith

-- The report never lies where the file does: its path is longer.
longer : (s n : Text) → length (output_path s n) < length (report_path s n)
unfolding report_path output_path
longer s [] = ground (
  arith,
  length-append s [],
  length-append s (b'/' ∷ []),
  length-append s (b'.' ∷ []),
  length-append s (b'/' ∷ b'.' ∷ []),
  length-append (s ++ b'.' ∷ []) (b'.' ∷ codes "krp"),
  length-append (s ++ b'/' ∷ b'.' ∷ []) (b'.' ∷ codes "krp"),
)
longer s (a ∷ n) = ground (
  arith,
  length-append s (a ∷ n),
  length-append s (b'/' ∷ a ∷ n),
  length-append s (b'.' ∷ a ∷ n),
  length-append s (b'/' ∷ b'.' ∷ a ∷ n),
  length-append (s ++ b'.' ∷ a ∷ n) (b'.' ∷ codes "krp"),
  length-append (s ++ b'/' ∷ b'.' ∷ a ∷ n) (b'.' ∷ codes "krp"),
)

pub report-ne-output : (s n : Text) → report_path s n ≢ output_path s n
report-ne-output s n e =
    let same : length (report_path s n) ≡ length (output_path s n) =
      ap (λ (t : Text). length t) e in
    omega (arith, longer s n, same)

module _ (conf : Configuration) (e : Probes) (md : FileMetadata) where
  unwritten-first_report :
      (v : Bool) (json : Text) (fs : Sas) (p : Text)
      → p ≢ report_path conf.sas_out md.filename
      → (first_report conf e md v json fs).1 p ≡ fs p
  unfolding first_report write_report store
  unwritten-first_report v json fs p n =
      ground (arith, text_eq_iff p (report_path conf.sas_out md.filename))

  unwritten-then_output :
      (r : Result (Unit {0})) (fs : Sas) (p : Text)
      → is_accepted conf md ≡ false
      → (then_output conf e md (r, fs)).1 p ≡ fs p
  unfolding then_output
  unwritten-then_output (ok _) fs p a = rw a
  unwritten-then_output (err x) fs p a = refl

  unwritten-both :
      (v : Bool) (json : Text) (fs : Sas) (p : Text)
      → is_accepted conf md ≡ false
      → p ≢ report_path conf.sas_out md.filename
      → (write_both conf e md v json fs).1 p ≡ fs p
  unfolding write_both
  unwritten-both v json fs p a n =
      let (r, fs') = first_report conf e md v json fs in
      unwritten-then_output r fs' p a ∙ unwritten-first_report v json fs p n

module _ (c : Crypto) (j : Json) (conf : Configuration) (keys : Option HybridKeyPair)
    (cert : Text) where
  unwritten-signed :
      (e : Probes) (md : FileMetadata) (v : Bool) (made : Result Report) (fs : Sas) (p : Text)
      → is_accepted conf md ≡ false
      → p ≢ report_path conf.sas_out md.filename
      → (write_signed c j conf keys cert e md v made fs).1 p ≡ fs p
  unfolding write_signed
  unwritten-signed e md v (err x) fs p a n = refl
  unwritten-signed e md v (ok report) fs p a n =
      elim (Option-cases (j.report_to_string_pretty report)) [
        | inl none_made ↦ rw (none_made, write_signed)
        | inr (json, made) ↦ rw (made, write_signed) (unwritten-both conf e md v json fs p a n)
      ]

  -- A file that is not accepted, with the digest computed again, leaves every path but that of its
  -- report as it was, whatever fails on the way.
  pub rejected_unwritten :
      (e : Probes) (f : FileData) (fs : Sas) (p : Text)
      → ((d : Text) → e.digest ≡ some d → is_accepted conf (recheck d f.md) ≡ false)
      → p ≢ report_path conf.sas_out f.md.filename
      → (output_file c j conf keys cert e f fs).1 p ≡ fs p
  unfolding output_file
  rejected_unwritten e f fs p a n = elim (Bool-cases e.rewinds) [
    | inl ready ↦ elim (Option-cases e.digest) [
      | inl unread ↦ rw (ready, unread)
      | inr (d, read) ↦
          rw (ready, read)
            (unwritten-signed e (recheck d f.md)
              (generate_report_metadata e.date (recheck d f.md)).is_valid
              (bind_and_sign c j (recheck d f.md) (generate_report_metadata e.date (recheck d f.md))
                keys cert)
              fs p (a d read)
              (λ q. n (q ∙ ap (report_path conf.sas_out) (filename-recheck d f.md))))
    ]
    | inr stuck ↦ rw stuck
  ]
