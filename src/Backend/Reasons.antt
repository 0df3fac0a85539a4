-- ===== src/Backend/Reasons.antt =====
-- What is shown of a report that keysas-out writes.
use keysas.Base.{
  ◌≡◌, refl, ◌∙◌, Bool, true, false, not, ◌&&◌, Option, none, some, List, [], ◌∷◌, Text, codes,
  is_empty, all, if◌then◌else◌, arith,
}
use keysas.Report.{ClockParts, FileMetadata, FileReport, Bd, Report, generate_report_metadata}
use keysas.Backend.Json.{
  Value, strings, as_array, index, as_bool, as_str, file_report_value, metadata_value, report_value,
}
use keysas.Backend.Krp.{
  bool_of, str_of, says_false, says_true, av_list, av_ok, checks_of, failure, krp_of, parse_krp,
}

-- The first of the failures that holds.
abbrev pub first_cause : List (Bool × Text) → Text
first_cause [] = codes "digest"
first_cause ((holds, cause) ∷ causes) = if holds then cause else first_cause causes

-- The failures of a checked file in the order in which they are named.
abbrev pub causes : FileMetadata → List (Bool × Text)
causes f =
    (f.is_corrupted, codes "corrupted")
    ∷ (f.is_toobig, codes "toobig")
    ∷ (not f.is_digest_ok, codes "digest")
    ∷ (not f.is_type_allowed, codes "forbidden")
    ∷ (not (is_empty f.av_report), codes "antivirus")
    ∷ (not (is_empty f.yara_report), codes "yara")
    ∷ (not f.specialized_pass, codes "specialized")
    ∷ (not f.vt_pass, codes "virustotal")
    ∷ []

av_ok-strings :
    (r : FileReport) (av : List Text) → r.av ≡ av → av_ok (file_report_value r) ≡ is_empty av
unfolding av_ok av_list file_report_value strings index as_array
av_ok-strings r [] e = rw e refl
av_ok-strings r (t ∷ ts) e = rw e refl

says_false_lem :
    (key : Text) (v : Value) (b : Bool) → as_bool (index key v) ≡ some b → says_false key v ≡ not b
unfolding says_false
says_false_lem key v true e = rw e refl
says_false_lem key v false e = rw e refl

says_true_lem :
    (key : Text) (v : Value) (b : Bool) → as_bool (index key v) ≡ some b → says_true key v ≡ b
unfolding says_true
says_true_lem key v true e = rw e refl
says_true_lem key v false e = rw e refl

module _ (t : ClockParts) (f : FileMetadata) (b : Bd) where
  abbrev pub written : Report
  written = record { metadata = generate_report_metadata t f; binding = b }

  abbrev meta : Value
  meta = metadata_value (generate_report_metadata t f)

  abbrev report : Value
  report = file_report_value (generate_report_metadata t f).report

  meta_lem : index (codes "metadata") (report_value written) ≡ meta
  unfolding report_value index
  meta_lem = refl

  report_lem : index (codes "report") meta ≡ report
  unfolding metadata_value index
  report_lem = refl

  av_lem : av_ok report ≡ is_empty f.av_report
  unfolding generate_report_metadata
  av_lem = av_ok-strings (generate_report_metadata t f).report f.av_report refl

  failure_lem : (failure meta report).0 ≡ first_cause (causes f)
  unfolding failure bool_of str_of file_report_value generate_report_metadata index as_bool as_str
  failure_lem =
      rw
        (
          says_true_lem (codes "toobig") report f.is_toobig refl,
          says_false_lem (codes "type_allowed") report f.is_type_allowed refl,
          says_false_lem (codes "specialized_pass") report f.specialized_pass refl,
          says_false_lem (codes "vt_pass") report f.vt_pass refl,
          av_lem,
        )
        (ground arith)

  is_valid_lem : bool_of true (codes "is_valid") meta ≡ (generate_report_metadata t f).is_valid
  unfolding bool_of metadata_value index as_bool
  is_valid_lem = refl

  blocked : (f.av_pass && f.yara_pass) ≡ false → (generate_report_metadata t f).is_valid ≡ false
  unfolding generate_report_metadata
  blocked h = ground arith

  -- What the checks say that are shown, where the flags say that the file passed them.
  checks_pass :
      f.is_corrupted ≡ false
      → f.is_toobig ≡ false
      → f.is_digest_ok ≡ true
      → f.is_type_allowed ≡ true
      → f.av_report ≡ []
      → f.yara_report ≡ []
      → f.specialized_pass ≡ true
      → f.vt_pass ≡ true
      → all (λ c. c.1) (checks_of report) ≡ true
  unfolding checks_of bool_of str_of file_report_value generate_report_metadata index as_bool as_str
  checks_pass co tb dg ty av ya sp vt = rw (av_lem, co, tb, dg, ty, av, ya, sp, vt) (ground arith)

  module _ (read_to_string : Text → Option Text) (from_str : Text → Option Value)
      (path content : Text) (found : read_to_string path ≡ some content)
      (parsed : from_str content ≡ some (report_value written)) where
    shown_lem : parse_krp read_to_string from_str path ≡ krp_of (report_value written)
    unfolding parse_krp
    shown_lem = rw (found, parse_krp, parsed) refl

    valid_lem : (krp_of (report_value written)).is_valid ≡ (generate_report_metadata t f).is_valid
    unfolding krp_of
    valid_lem = rw meta_lem is_valid_lem

    reason_lem :
        (krp_of (report_value written)).reason
        ≡ (if (generate_report_metadata t f).is_valid then none else some (first_cause (causes f)))
    unfolding krp_of
    reason_lem = rw (meta_lem, report_lem, is_valid_lem, failure_lem) refl

    -- A report that can be read, and that was generated of a checked file, is shown as the report says: as
    -- passed, without a reason, where it calls the file valid; as failed otherwise, for the first that
    -- holds of corruption, size, digest, type, antivirus, YARA, analysis and VirusTotal, of which the
    -- antivirus and YARA hold where they reported anything, and else for the digest.
    pub parse_krp-verdict :
        let krp = parse_krp read_to_string from_str path in
        let is_valid = (generate_report_metadata t f).is_valid in
        (krp.is_valid ≡ is_valid)
        × (krp.reason ≡ (if is_valid then none else some (first_cause (causes f))))
    parse_krp-verdict = rw shown_lem (valid_lem, reason_lem)

    -- The antivirus or YARA did not let a file pass and reported nothing, as where they could not run, and
    -- all else went well: the failure is put down to the digest, while every check that is shown, the one
    -- of the digest among them, is shown as passed.
    pub parse_krp-silent :
        f.is_corrupted ≡ false
        → f.is_toobig ≡ false
        → f.is_digest_ok ≡ true
        → f.is_type_allowed ≡ true
        → f.av_report ≡ []
        → f.yara_report ≡ []
        → f.specialized_pass ≡ true
        → f.vt_pass ≡ true
        → (f.av_pass && f.yara_pass) ≡ false
        → let krp = parse_krp read_to_string from_str path in
          (krp.is_valid ≡ false)
          × (krp.reason ≡ some (codes "digest"))
          × (checks : List (Text × Bool)) × (krp.checks ≡ some checks)
          × (all (λ c. c.1) checks ≡ true)
    unfolding krp_of
    parse_krp-silent co tb dg ty av ya sp vt no_pass =
        let invalid : (generate_report_metadata t f).is_valid ≡ false = blocked no_pass in
        let (v, r) = parse_krp-verdict in
        (
          v ∙ invalid,
          r ∙ rw (invalid, co, tb, dg, ty, av, ya, sp, vt) refl,
          checks_of report,
          rw (shown_lem, meta_lem, report_lem) refl,
          checks_pass co tb dg ty av ya sp vt,
        )
