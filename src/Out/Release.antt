-- ===== src/Out/Release.antt =====
-- What one file leaves behind where no call fails, and how acceptance and the report's verdict compare.
use keysas.Base.{
  ◌≡◌, inl, inr, refl, ap, ◌∙◌, Bool, true, not, ◌&&◌, ◌||◌, Option, some, [], ◌∷◌, ◌++◌, Text,
  Bytes, utf8, text_eq, if◌then◌else◌, ok, Bool-cases, arith,
}
use mathlib.Core.Path.{subst}
use keysas.Signing.{Crypto}
use keysas.Report.{
  FileMetadata, Report, Json, HybridKeyPair, ClockParts, generate_report_metadata, bind_and_sign,
}
use keysas.Out.{
  FileData, should_write, Configuration, Sas, store, Probes, whole, report_path, output_path,
  is_accepted, recheck, write_report, write_output, first_report, then_output, write_both,
  write_signed, write_checked, output_file,
}
use keysas.Out.Write.{filename-recheck}

-- No call that writes fails, and every write lands whole.
pub record Lands (e : Probes) : Type 0 where
  pub report_opens : e.report_opens ≡ true
  pub report_lands : e.report_lands ≡ whole
  pub output_opens : e.output_opens ≡ true
  pub output_rewinds : e.output_rewinds ≡ true
  pub output_lands : e.output_lands ≡ whole

-- What lies at a path afterwards: the file where it is accepted, the report where it is asked for.
pub outcome : Bool → Bool → Text → Text → Bytes → Bytes → Sas → Text → Option Bytes
outcome accepted wanted output report content json fs p =
    if text_eq p output && accepted
    then some content
    else if text_eq p report && wanted
    then some json
    else fs p

module _ (conf : Configuration) (e : Probes) (md : FileMetadata) (lands : Lands e) where
  both-outcome :
      (v : Bool) (json : Text) (fs : Sas) (p : Text)
      → ((write_both conf e md v json fs).0 ≡ ok tt)
        × ((write_both conf e md v json fs).1 p
            ≡ outcome
                (is_accepted conf md)
                (should_write conf.krp_mode v)
                (output_path conf.sas_out md.filename)
                (report_path conf.sas_out md.filename)
                e.content
                (utf8 (json ++ 10 ∷ []))
                fs
                p)
  unfolding write_both first_report then_output write_report write_output outcome store
  both-outcome v json fs p = elim (Bool-cases (should_write conf.krp_mode v)) [
    | inl w ↦ elim (Bool-cases (is_accepted conf md)) [
      | inl a ↦
          rw
            (
              w, a, lands.report_opens, lands.report_lands, lands.output_opens,
              lands.output_rewinds, lands.output_lands,
            )
            (ground arith)
      | inr a ↦ rw (w, a, lands.report_opens, lands.report_lands) (ground arith)
    ]
    | inr w ↦ elim (Bool-cases (is_accepted conf md)) [
      | inl a ↦
          rw (w, a, lands.output_opens, lands.output_rewinds, lands.output_lands) (ground arith)
      | inr a ↦ rw (w, a) (ground arith)
    ]
  ]

module _ (c : Crypto) (j : Json) (conf : Configuration) (keys : Option HybridKeyPair)
    (cert : Text) where
  output_file-both :
      (e : Probes) (f : FileData) (fs : Sas) (d json : Text) (report : Report)
      → e.rewinds ≡ true
      → e.digest ≡ some d
      → bind_and_sign c j
          (recheck d f.md)
          (generate_report_metadata e.date (recheck d f.md))
          keys
          cert
        ≡ ok report
      → j.report_to_string_pretty report ≡ some json
      → output_file c j conf keys cert e f fs
        ≡ write_both conf e
            (recheck d f.md)
            (generate_report_metadata e.date (recheck d f.md)).is_valid
            json
            fs
  unfolding output_file write_checked write_signed
  output_file-both e f fs d json report r hd made printed =
      rw (r, hd, made, write_signed, printed) refl

  -- Where the descriptor can be rewound and read to the digest `d`, the report is made and printed as
  -- `json`, and every write lands whole, the file is dealt with without an error. It then lies at its own
  -- path exactly if it is accepted with `d`; the report, with a line feed, lies at the report's path
  -- exactly if the mode asks for it; every other path is as before.
  pub output_file-outcome :
      (e : Probes) (f : FileData) (fs : Sas) (p d json : Text) (report : Report)
      → Lands e
      → e.rewinds ≡ true
      → e.digest ≡ some d
      → bind_and_sign c j
          (recheck d f.md)
          (generate_report_metadata e.date (recheck d f.md))
          keys
          cert
        ≡ ok report
      → j.report_to_string_pretty report ≡ some json
      → ((output_file c j conf keys cert e f fs).0 ≡ ok tt)
        × ((output_file c j conf keys cert e f fs).1 p
            ≡ outcome
                (is_accepted conf (recheck d f.md))
                (should_write conf.krp_mode
                  (generate_report_metadata e.date (recheck d f.md)).is_valid)
                (output_path conf.sas_out f.md.filename)
                (report_path conf.sas_out f.md.filename)
                e.content
                (utf8 (json ++ 10 ∷ []))
                fs
                p)
  output_file-outcome e f fs p d json report lands r hd made printed =
      let md = recheck d f.md in
      let v = (generate_report_metadata e.date md).is_valid in
      let same = output_file-both e f fs d json report r hd made printed in
      let (done, left) = both-outcome conf e md lands v json fs p in
      (
        ap (λ s. s.0) same ∙ done,
        ap (λ s. s.1 p) same
            ∙ subst
                (λ n.
                  (write_both conf e md v json fs).1 p
                  ≡ outcome (is_accepted conf md) (should_write conf.krp_mode v)
                      (output_path conf.sas_out n) (report_path conf.sas_out n) e.content
                      (utf8 (json ++ 10 ∷ [])) fs p)
                (filename-recheck d f.md) left,
      )

-- A file is accepted exactly when its report would call it valid with the YARA result counted as passed
-- where `yara_clean` is off.
pub accepted-valid :
    (conf : Configuration) (t : ClockParts) (md : FileMetadata)
    → is_accepted conf md
      ≡ (generate_report_metadata t
          (record md { yara_pass = md.yara_pass || not conf.yara_clean })).is_valid
unfolding is_accepted generate_report_metadata
accepted-valid conf t md = ground arith
