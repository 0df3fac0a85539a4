-- ===== src/Transit/Stages.antt =====
-- The checks of one file in three groups, and what each group does to the flags of the verdict.
use keysas.Base.{
  ℕ, ◌≤◌, ◌≡◌, ◌↔◌, ◌⊎◌, true, false, Option, none, some, [], Text, Bytes, text_eq_iff,
  Option-cases, inl, inr, Unicode, arith,
}
use keysas.Base.Daemon.{live}
use keysas.Transit.Metadata.{FileMetadata, Configuration}
use keysas.Transit.Peers.{call_vt_analyzer, call_specialized_analyzer}
use keysas.Transit.FileType.{Kind, check_is_extension_allowed, get_extension}
use keysas.Transit.Check.{
  Probes, ScanResult, check_digest, check_size, check_antivirus, check_yara, check_file_type,
  check_specialized, check_virustotal, run_checks,
}

-- The flags before any check: what `parse_messages` writes.
pub record IsFresh (md : FileMetadata) : Type 0 where
  pub not_ok : md.is_digest_ok ≡ false
  pub too_big : md.is_toobig ≡ true
  pub not_allowed : md.is_type_allowed ≡ false
  pub no_av : md.av_pass ≡ false
  pub no_yara : md.yara_pass ≡ false
  pub specialized : md.specialized_pass ≡ true
  pub vt : md.vt_pass ≡ true

module _ (get : Bytes → Option Kind) (u : Unicode) (e : Probes) (conf : Configuration) where
  -- The checks in three groups, where no rewind fails: those of the file itself, those of the
  -- scanners and of the type, and those of the optional services.
  pub own : FileMetadata → FileMetadata
  own md = check_size e conf (check_digest e md)

  pub scanned_by : FileMetadata → FileMetadata
  scanned_by md = check_file_type get u e conf (check_yara e conf (check_antivirus e md))

  pub served : FileMetadata → FileMetadata
  served md = check_virustotal e conf (elim conf.socket_analyze [
    | none ↦ md
    | some sock ↦
        let a = call_specialized_analyzer e.analyze sock md.filename md.file_type in
        record md {
          specialized_pass = a.pass;
          specialized_analyzer = a.analyzer;
          specialized_summary = a.summary;
        }
  ])

  abbrev pub checked : FileMetadata → FileMetadata
  checked md = served (scanned_by (own md))

  pub run_checks-checked :
      (md out : FileMetadata) → run_checks get u e conf md ≡ live out → out ≡ checked md
  unfolding run_checks own scanned_by served check_specialized
  run_checks-checked md out h = ground arith

  pub own-served :
      (md : FileMetadata)
      → ((served md).is_digest_ok ≡ md.is_digest_ok)
        × ((served md).is_toobig ≡ md.is_toobig)
        × ((served md).is_type_allowed ≡ md.is_type_allowed)
        × ((served md).av_pass ≡ md.av_pass)
        × ((served md).yara_pass ≡ md.yara_pass)
  unfolding served check_virustotal
  own-served md = ground arith

  pub own-scanned_by :
      (md : FileMetadata)
      → ((scanned_by md).is_digest_ok ≡ md.is_digest_ok)
        × ((scanned_by md).is_toobig ≡ md.is_toobig)
        × ((scanned_by md).filename ≡ md.filename)
        × ((scanned_by md).digest ≡ md.digest)
        × ((scanned_by md).specialized_pass ≡ md.specialized_pass)
        × ((scanned_by md).vt_pass ≡ md.vt_pass)
  unfolding scanned_by check_antivirus check_yara check_file_type
  own-scanned_by md = ground arith

  pub names-own :
      (md : FileMetadata)
      → ((own md).filename ≡ md.filename)
        × ((own md).digest ≡ md.digest)
        × ((own md).yara_pass ≡ md.yara_pass)
        × ((own md).specialized_pass ≡ md.specialized_pass)
        × ((own md).vt_pass ≡ md.vt_pass)
  unfolding own check_digest check_size
  names-own md = ground arith

  pub digest_own :
      (md : FileMetadata)
      → IsFresh md
      → ((own md).is_digest_ok ≡ true) ↔ (e.digest ≡ some md.digest)
  unfolding own check_digest check_size
  digest_own md f = elim (Option-cases e.digest) [
    | inl n ↦ ground arith
    | inr (d, s) ↦ ground (arith, text_eq_iff md.digest d)
  ]

  pub size_own :
      (md : FileMetadata)
      → IsFresh md
      → (own md).is_toobig ≡ false
      → (n : ℕ) × (e.size ≡ some n) × (n ≤ conf.max_size)
  unfolding own check_digest check_size
  size_own md f t = elim (Option-cases e.size) [
    | inl n ↦ ground arith
    | inr (n, s) ↦ (n, s, ground arith)
  ]

  pub size_own_small :
      (md : FileMetadata) (n : ℕ) → e.size ≡ some n → n ≤ conf.max_size → (own md).is_toobig ≡ false
  unfolding own check_digest check_size
  size_own_small md n s h = ground arith

  pub scan_by :
      (md : FileMetadata)
      → (scanned_by md).av_pass ≡ true
      → (r : ScanResult) × (e.scan ≡ some r) × (r.is_infected ≡ false)
  unfolding scanned_by check_antivirus check_yara check_file_type
  scan_by md t = elim (Option-cases e.scan) [
    | inl n ↦ ground arith
    | inr (r, s) ↦ (r, s, ground arith)
  ]

  pub scan_by_clean :
      (md : FileMetadata) (r : ScanResult)
      → e.scan ≡ some r
      → r.is_infected ≡ false
      → (scanned_by md).av_pass ≡ true
  unfolding scanned_by check_antivirus check_yara check_file_type
  scan_by_clean md r s n = ground arith

  pub yara_by :
      (md : FileMetadata)
      → md.yara_pass ≡ false
      → ((scanned_by md).yara_pass ≡ true) ↔ ((conf.yara_rules ≡ true) × (e.yara_scan ≡ some []))
  unfolding scanned_by check_antivirus check_yara check_file_type
  yara_by md f = ground arith

  pub type_by :
      (md : FileMetadata)
      → (scanned_by md).is_type_allowed ≡ true
      → (b : Bytes) × (e.head ≡ some b)
        × ((conf.type_off ≡ true) ⊎ (check_is_extension_allowed get u b md.filename conf ≡ true))
  unfolding scanned_by check_antivirus check_yara check_file_type
  type_by md t = elim (Option-cases e.head) [
    | inl n ↦ ground arith
    | inr (b, s) ↦ (b, s, ground arith)
  ]

  pub type_by_allowed :
      (md : FileMetadata) (b : Bytes)
      → e.head ≡ some b
      → (conf.type_off ≡ true) ⊎ (check_is_extension_allowed get u b md.filename conf ≡ true)
      → (scanned_by md).is_type_allowed ≡ true
  unfolding scanned_by check_antivirus check_yara check_file_type
  type_by_allowed md b s h = ground arith

  pub file_type_by :
      (md : FileMetadata) (b : Bytes)
      → e.head ≡ some b
      → (scanned_by md).file_type ≡ get_extension get b
  unfolding scanned_by check_antivirus check_yara check_file_type
  file_type_by md b s = ground arith

  -- The two services, as the metadata that reaches them says.
  pub specialized_served :
      (md : FileMetadata)
      → md.specialized_pass ≡ true
      → ((served md).specialized_pass ≡ true) ↔ (
          (sock : Text)
          → conf.socket_analyze ≡ some sock
          → (call_specialized_analyzer e.analyze sock md.filename md.file_type).pass ≡ true)
  unfolding served check_virustotal
  specialized_served md f = elim (Option-cases conf.socket_analyze) [
    | inl n ↦ (λ _ sock s. ground arith, λ _. ground arith)
    | inr (sock, s) ↦ (λ t sock' s'. ground arith, λ h. ground (arith, h sock s))
  ]

  pub vt_served :
      (md : FileMetadata)
      → md.vt_pass ≡ true
      → ((served md).vt_pass ≡ true) ↔ (
          (sock : Text)
          → conf.socket_vt ≡ some sock
          → (call_vt_analyzer e.vt sock md.digest).pass ≡ true)
  unfolding served check_virustotal
  vt_served md f = elim (Option-cases conf.socket_vt) [
    | inl n ↦ (λ _ sock s. ground arith, λ _. ground arith)
    | inr (sock, s) ↦ (λ t sock' s'. ground arith, λ h. ground (arith, h sock s))
  ]
