-- ===== src/Transit/Verdict.antt =====
-- The verdict of `check_files` on a file fresh from keysas-in, against what the services answered.
use keysas.Base.{
  ℕ, ◌≤◌, ◌≡◌, ◌↔◌, ◌⊎◌, sym, ap, ◌∙◌, true, false, Option, some, [], Text, Bytes, Unicode, arith,
}
use mathlib.Core.Path.{subst, ap₂}
use keysas.Base.Daemon.{live}
use keysas.Transit.Metadata.{FileMetadata, Configuration}
use keysas.Transit.Peers.{call_vt_analyzer, call_specialized_analyzer}
use keysas.Transit.FileType.{Kind, check_is_extension_allowed, get_extension}
use keysas.Transit.Check.{Probes, ScanResult, passed, run_checks}
use keysas.Transit.Stages.{
  IsFresh, own, scanned_by, served, checked, run_checks-checked, own-served, own-scanned_by,
  names-own, digest_own, size_own, size_own_small, scan_by, scan_by_clean, yara_by, type_by,
  type_by_allowed, file_type_by, specialized_served, vt_served,
}

-- What the verdict needs of a file's name and digest: the digest matches, the size was read and is
-- within the limit, the first megabyte was read and its type is allowed (or type checks are off),
-- clamd answered and found nothing, the rules are there and none matched, and the optional services,
-- where a socket is configured, passed the file.
pub record IsClean (get : Bytes → Option Kind) (u : Unicode) (e : Probes) (conf : Configuration)
    (filename digest : Text) : Type 0 where
  pub head : Bytes
  pub size : ℕ
  pub scan : ScanResult
  pub digest_ok : e.digest ≡ some digest
  pub size_read : e.size ≡ some size
  pub size_ok : size ≤ conf.max_size
  pub scanned : e.scan ≡ some scan
  pub not_infected : scan.is_infected ≡ false
  pub rules_there : conf.yara_rules ≡ true
  pub no_match : e.yara_scan ≡ some []
  pub head_read : e.head ≡ some head
  pub type_ok :
      (conf.type_off ≡ true) ⊎ (check_is_extension_allowed get u head filename conf ≡ true)
  pub specialized_ok :
      (sock : Text)
      → conf.socket_analyze ≡ some sock
      → (call_specialized_analyzer e.analyze sock filename (get_extension get head)).pass ≡ true
  pub vt_ok :
      (sock : Text) → conf.socket_vt ≡ some sock → (call_vt_analyzer e.vt sock digest).pass ≡ true

passed_parts :
    (md : FileMetadata)
    → (passed md ≡ true) ↔ (
        (md.is_digest_ok ≡ true)
        × (md.is_toobig ≡ false)
        × (md.is_type_allowed ≡ true)
        × (md.av_pass ≡ true)
        × (md.yara_pass ≡ true)
        × (md.specialized_pass ≡ true)
        × (md.vt_pass ≡ true))
unfolding passed
passed_parts md = ground arith

module _ (get : Bytes → Option Kind) (u : Unicode) (e : Probes) (conf : Configuration) where
  checked-IsClean :
      (md : FileMetadata)
      → IsFresh md
      → passed (checked get u e conf md) ≡ true
      → IsClean get u e conf md.filename md.digest
  checked-IsClean md f t =
      let m1 : FileMetadata = own get u e conf md in
      let m2 : FileMetadata = scanned_by get u e conf m1 in
      let (d, z, ty, av, ya, sp, vt) = (passed_parts (served get u e conf m2)).0 t in
      let (sd, sz, sty, sav, sya) = own-served get u e conf m2 in
      let (cd, cz, cf, cg, csp, cvt) = own-scanned_by get u e conf m1 in
      let (nf, ng, ny, nsp, nvt) = names-own get u e conf md in
      let digest = (digest_own get u e conf md f).0 (sym cd ∙ sym sd ∙ d) in
      let (n, en, ln) = size_own get u e conf md f (sym cz ∙ sym sz ∙ z) in
      let (r, er, lr) = scan_by get u e conf m1 (sym sav ∙ av) in
      let (rules, none_matched) = (yara_by get u e conf m1 (ny ∙ f.no_yara)).0 (sym sya ∙ ya) in
      let (b, eb, tb) = type_by get u e conf m1 (sym sty ∙ ty) in
      let sp_served = (specialized_served get u e conf m2 (csp ∙ nsp ∙ f.specialized)).0 sp in
      let vt_served' = (vt_served get u e conf m2 (cvt ∙ nvt ∙ f.vt)).0 vt in
      record {
        head = b;
        size = n;
        scan = r;
        digest_ok = digest;
        size_read = en;
        size_ok = ln;
        scanned = er;
        not_infected = lr;
        rules_there = rules;
        no_match = none_matched;
        head_read = eb;
        type_ok =
            subst (λ n. (conf.type_off ≡ true) ⊎ (check_is_extension_allowed get u b n conf ≡ true))
              nf tb;
        specialized_ok = λ sock s.
            ap₂ (λ n t. (call_specialized_analyzer e.analyze sock n t).pass) (sym (cf ∙ nf))
              (sym (file_type_by get u e conf m1 b eb))
            ∙ sp_served sock s;
        vt_ok = λ sock s.
            ap (λ d. (call_vt_analyzer e.vt sock d).pass) (sym (cg ∙ ng)) ∙ vt_served' sock s;
      }

  IsClean-checked :
      (md : FileMetadata)
      → IsFresh md
      → IsClean get u e conf md.filename md.digest
      → passed (checked get u e conf md) ≡ true
  IsClean-checked md f k =
      let m1 : FileMetadata = own get u e conf md in
      let m2 : FileMetadata = scanned_by get u e conf m1 in
      let (sd, sz, sty, sav, sya) = own-served get u e conf m2 in
      let (cd, cz, cf, cg, csp, cvt) = own-scanned_by get u e conf m1 in
      let (nf, ng, ny, nsp, nvt) = names-own get u e conf md in
      (passed_parts (served get u e conf m2)).1 (
        sd ∙ cd ∙ (digest_own get u e conf md f).1 k.digest_ok,
        sz ∙ cz ∙ size_own_small get u e conf md k.size k.size_read k.size_ok,
        sty
            ∙ type_by_allowed get u e conf m1 k.head k.head_read (
                subst
                  (λ n.
                    (conf.type_off ≡ true)
                    ⊎ (check_is_extension_allowed get u k.head n conf ≡ true))
                  (sym nf) k.type_ok),
        sav ∙ scan_by_clean get u e conf m1 k.scan k.scanned k.not_infected,
        sya ∙ (yara_by get u e conf m1 (ny ∙ f.no_yara)).1 (k.rules_there, k.no_match),
        (specialized_served get u e conf m2 (csp ∙ nsp ∙ f.specialized)).1 (λ sock s.
            ap₂ (λ n t. (call_specialized_analyzer e.analyze sock n t).pass) (cf ∙ nf)
              (file_type_by get u e conf m1 k.head k.head_read)
            ∙ k.specialized_ok sock s),
        (vt_served get u e conf m2 (cvt ∙ nvt ∙ f.vt)).1
            (λ sock s. ap (λ d. (call_vt_analyzer e.vt sock d).pass) (cg ∙ ng) ∙ k.vt_ok sock s),
      )

  -- A file that arrives with the flags that `parse_messages` writes, and whose checks all run, passes
  -- exactly when it is clean: each mandatory service answered and answered well, and no configured
  -- optional service objected. An error of a mandatory check never lets a file pass.
  pub passed-iff_IsClean :
      (md out : FileMetadata)
      → IsFresh md
      → run_checks get u e conf md ≡ live out
      → (passed out ≡ true) ↔ IsClean get u e conf md.filename md.digest
  passed-iff_IsClean md out f h =
      let same = run_checks-checked get u e conf md out h in
      (
        (λ t. checked-IsClean md f (ap passed (sym same) ∙ t)),
        (λ k. ap passed same ∙ IsClean-checked md f k),
      )
