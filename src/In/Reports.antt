-- ===== src/In/Reports.antt =====
-- What a failed sending leaves of the report on a damaged file.
use keysas.Base.{
  ℕ, ◌≡◌, ◌≢◌, refl, ap, ◌∙◌, inl, inr, true, false, Option, none, some, Bool-cases, List, [], ◌∷◌,
  ◌++◌, Text, Bytes, codes, text_eq, mem_text, file_name, extension, text_eq_iff, ==_iff, arith,
}
use keysas.In.{
  FileMetadata, is_file, unlink, report_of, is_corrupted, corrupted_by, Probe, In, remove_report,
  hash_file, open_file, start, prepare, deliver, send_batch, send_all, send_files, is_hidden,
}
use keysas.In.Stages.{others_stay}

text_eq-longer : (x : Text) (c : ℕ) (r : Text) → text_eq x (x ++ c ∷ r) ≡ false
unfolding text_eq
text_eq-longer [] c r = refl
text_eq-longer (a ∷ x) c r = ground (arith, ==_iff a a, text_eq-longer x c r)

unlink-gone : (f : Text) (dir : List Text) → mem_text f (unlink f dir) ≡ false
unfolding unlink mem_text
unlink-gone f [] = refl
unlink-gone f (y ∷ dir) = ground (arith, text_eq_iff f y, text_eq_iff y f, unlink-gone f dir)

-- An ordinary file is corrupted just when there is a report on it.
corrupted_iff_report :
    (dir : List Text) (f : Text) (o : Option Text)
    → o ≢ some (codes "ioerror")
    → corrupted_by dir f o ≡ is_file dir (report_of f)
unfolding corrupted_by text_eq mem_text report_of
corrupted_iff_report dir f none n = refl
corrupted_iff_report dir f (some ext) n = elim (Bool-cases (text_eq ext (codes "ioerror"))) [
  | inl e ↦ absurd (n (ap (λ t. some t) ((text_eq_iff ext (codes "ioerror")).0 e)))
  | inr e ↦ rw e refl
]

is_corrupted-ordinary :
    (dir : List Text) (f : Text)
    → extension f ≢ some (codes "ioerror")
    → is_file dir f ≡ true
    → is_corrupted dir f ≡ is_file dir (report_of f)
unfolding is_corrupted
is_corrupted-ordinary dir f n here = rw here (corrupted_iff_report dir f (extension f) n)

-- The file is opened and its digest computed, its report can be removed, but its message is not sent.
abbrev pub IsUnsent : Probe → ℕ → Text → Type 0
IsUnsent p fd digest =
    (p.opened ≡ some fd) × (p.digest ≡ some digest) × (p.removes ≡ true) × (p.sends ≡ false)

unsent_batch :
    (encode : FileMetadata → Option Bytes) (p : Probe) (fd : ℕ) (digest f : Text) (s : In)
    → IsUnsent p fd digest
    → file_name f ≡ some f
    → is_corrupted s.dir f ≡ true
    → let r = send_batch encode p f s in (r.0 ≡ false) × (r.1.dir ≡ unlink (report_of f) s.dir)
unfolding send_batch prepare start open_file hash_file remove_report deliver
unsent_batch encode p fd digest f s (o, d, r, u) n c = rw (n, o, d, c, r, u) (refl, refl)

unsent :
    (encode : FileMetadata → Option Bytes) (probe : Text → Probe) (fd : ℕ) (digest f : Text)
    (files : List Text) (s : In)
    → IsUnsent (probe f) fd digest
    → file_name f ≡ some f
    → is_hidden f ≡ false
    → is_corrupted s.dir f ≡ true
    → let r = send_files encode probe (f ∷ files) s in
      (r.0 ≡ false) × (r.1.dir ≡ unlink (report_of f) s.dir)
unfolding send_files send_all
unsent encode probe fd digest f files s u n h c =
    let (failed, left) = unsent_batch encode (probe f) fd digest f s u n c in
    rw (h, send_all, failed) (refl, left)

-- A visible file with a report on it, which does not end in `.ioerror` itself, is taken for corrupted. Where
-- a round comes to it first, opens it, computes its digest and can remove its report, but cannot send its
-- message, the round fails; the file stays to be sent again, but the report is gone, so that the file is
-- then taken for sound. The files after it, its report among them, may be any.
pub report-lost :
    (encode : FileMetadata → Option Bytes) (probe : Text → Probe) (fd : ℕ) (digest f : Text)
    (files : List Text) (s : In)
    → IsUnsent (probe f) fd digest
    → file_name f ≡ some f
    → is_hidden f ≡ false
    → extension f ≢ some (codes "ioerror")
    → is_file s.dir f ≡ true
    → is_file s.dir (report_of f) ≡ true
    → let r = send_files encode probe (f ∷ files) s in
      (is_corrupted s.dir f ≡ true)
      × (r.0 ≡ false)
      × (is_file r.1.dir f ≡ true)
      × (is_corrupted r.1.dir f ≡ false)
unfolding report_of
report-lost encode probe fd digest f files s u n h e here report =
    let c = is_corrupted-ordinary s.dir f e here ∙ report in
    let (failed, left) = unsent encode probe fd digest f files s u n h c in
    let stays = others_stay f (report_of f) (text_eq-longer f _ _) s.dir here in
    let gone = unlink-gone (report_of f) s.dir in
    (
      c,
      failed,
      ap (λ d. is_file d f) left ∙ stays,
      ap (λ d. is_corrupted d f) left
          ∙ (is_corrupted-ordinary (unlink (report_of f) s.dir) f e stays ∙ gone),
    )
