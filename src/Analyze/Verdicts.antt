-- ===== src/Analyze/Verdicts.antt =====
-- When the searches for text (script.rs, pdf.rs, lnk.rs) fail a file.
use keysas.Base.{
  ◌≡◌, ◌↔◌, refl, ◌∙◌, Bool, true, false, not, ◌&&◌, ◌||◌, some, inl, inr, Bool-cases, Option-cases,
  List, Text, Bytes, codes, any, Some, any-Some, ◌⊎◌, Within, contains, contains-Within,
  to_lowercase, Unicode, arith,
}
use keysas.Analyze.Findings.{Findings, no_findings, for_each, passed-for_each}
use keysas.Analyze.Category.{lower_extension}
use keysas.Analyze.Script
use keysas.Analyze.Lnk

-- `x` fails it, `y` does not: what the verdict of a file says of the test that decides.
pub false_iff : (a b : Bool) → a ≡ not b → (a ≡ false) ↔ (b ≡ true)
false_iff a b e = ground arith

pub iff_trans : {A B C : Type 0} → A ↔ B → B ↔ C → A ↔ C
iff_trans f g = ((λ a. g.0 (f.0 a)), (λ c. f.1 (g.1 c)))

-- The pattern is one that blocks, and the text has it, whatever the case of the letters.
abbrev pub Blocks : Unicode → Text → Script.Pattern → Type 0
Blocks u text p = (p.1 ≡ true) × Within (to_lowercase u p.0) (to_lowercase u text)

blocks : Unicode → Text → Script.Pattern → Bool
blocks u text p = p.1 && contains (to_lowercase u text) (to_lowercase u p.0)

blocks-Blocks :
    (u : Unicode) (text : Text) (p : Script.Pattern) → (blocks u text p ≡ true) ↔ Blocks u text p
unfolding blocks
blocks-Blocks u text p =
    let w = contains-Within (to_lowercase u text) (to_lowercase u p.0) in
    ((λ e. (ground arith, w.0 (ground arith))), (λ (b, i). let c = w.1 i in ground arith))

passed-note :
    (u : Unicode) (text : Text) (p : Script.Pattern) (f : Findings)
    → (Script.note u (to_lowercase u text) p f).passed ≡ (f.passed && not (blocks u text p))
unfolding blocks Script.note
passed-note u text (pattern, blocking, description) f = ground arith

-- A script is failed just when it has a pattern that blocks, of the table for its extension.
pub script-verdict :
    (u : Unicode) (text filename : Text) (patterns : List Script.Pattern)
    → Script.patterns_of (lower_extension u filename) ≡ some patterns
    → ((Script.analyze u (Script.content text) filename).0 ≡ false) ↔ Some (Blocks u text) patterns
unfolding Script.analyze blocks Script.patterns_of
script-verdict u text filename patterns e =
    let run =
      passed-for_each (Script.note u (to_lowercase u text)) (blocks u text) (passed-note u text)
        patterns no_findings in
    iff_trans (false_iff _ (any (blocks u text) patterns) (rw (e, run) refl))
      (any-Some (blocks u text) (Blocks u text) (blocks-Blocks u text) patterns)

-- The loops of lnk.rs and pdf.rs over fixed tables.
abbrev pub Has : Text → Text → Type 0
Has text word = Within word text

passed-check_cmdline :
    (t cmd : Text) (f : Findings)
    → (Lnk.check_cmdline t cmd f).passed ≡ (f.passed && not (contains t cmd))
unfolding Lnk.check_cmdline
passed-check_cmdline t cmd f = ground arith

passed-check_path :
    (t path : Text) (f : Findings)
    → (Lnk.check_path t path f).passed ≡ (f.passed && not (contains t path))
unfolding Lnk.check_path
passed-check_path t path f = ground arith

is_unc : Text → Bool
is_unc t = contains t (codes "\\\\") && not (contains t (codes "\\\\localhost"))

passed-check_unc :
    (t : Text) (f : Findings) → (Lnk.check_unc t f).passed ≡ (f.passed && not (is_unc t))
unfolding Lnk.check_unc is_unc
passed-check_unc t f = ground arith

passed-note_target : (t : Text) (f : Findings) → (Lnk.note_target t f).passed ≡ f.passed
unfolding Lnk.note_target
passed-note_target t f = elim (Option-cases (Lnk.extract_target_path t)) [
  | inl n ↦ rw (n, Lnk.note_target) refl
  | inr (target, e) ↦ rw (e, Lnk.note_target) refl
]

-- The text names a share of another machine.
abbrev pub IsUnc : Text → Type 0
IsUnc t = Within (codes "\\\\") t × ¬ (Within (codes "\\\\localhost") t)

is_unc-IsUnc : (t : Text) → (is_unc t ≡ true) ↔ IsUnc t
unfolding is_unc
is_unc-IsUnc t =
    let a = contains-Within t (codes "\\\\") in
    let b = contains-Within t (codes "\\\\localhost") in
    (
      (λ e. (a.0 (ground arith), (λ w. let c = b.1 w in ground arith))),
      (λ (w, no_w). elim (Bool-cases (contains t (codes "\\\\localhost"))) [
        | inl c ↦ absurd (no_w (b.0 c))
        | inr c ↦ let d = a.1 w in ground arith
      ]),
    )

checks-passed :
    (t text : Text) (cmds paths : List Text)
    → (Lnk.note_target text (
        Lnk.check_unc t (
          for_each
            (Lnk.check_path t)
            paths
            (for_each (Lnk.check_cmdline t) cmds no_findings)))).passed
      ≡ not (any (contains t) cmds || (any (contains t) paths || is_unc t))
checks-passed t text cmds paths =
    let f1 = for_each (Lnk.check_cmdline t) cmds no_findings in
    let f2 = for_each (Lnk.check_path t) paths f1 in
    let e1 =
      passed-for_each (Lnk.check_cmdline t) (contains t) (passed-check_cmdline t) cmds
        no_findings in
    let e2 = passed-for_each (Lnk.check_path t) (contains t) (passed-check_path t) paths f1 in
    let e3 = passed-check_unc t f2 in passed-note_target text (Lnk.check_unc t f2) ∙ ground arith

-- What a link's text must have for the link to be failed.
abbrev pub Targets : Text → Type 0
Targets t = Some (Has t) Lnk.suspicious_cmdline ⊎ (Some (Has t) Lnk.suspicious_paths ⊎ IsUnc t)

pub or_iff :
    {A B : Type 0} (a b : Bool) → (a ≡ true) ↔ A → (b ≡ true) ↔ B → ((a || b) ≡ true) ↔ (A ⊎ B)
or_iff true b f g = ((λ _. inl (f.0 refl)), (λ _. refl))
or_iff false b f g =
    ((λ e. inr (g.0 e)), (λ s. elim s [ inl x ↦ let e = f.1 x in ground arith | inr y ↦ g.1 y ]))

pub Has-iff : (t : Text) (ws : List Text) → (any (contains t) ws ≡ true) ↔ Some (Has t) ws
Has-iff t ws = any-Some (contains t) (Has t) (contains-Within t) ws

-- A link is failed just when the runs of at least six printable characters in its bytes, in lower case,
-- name a program or a path of the tables, or hold two backslashes and nowhere `\\localhost`.
pub link-verdict :
    (u : Unicode) (buf : Bytes)
    → Lnk.is_lnk buf ≡ true
    → ((Lnk.analyze u (Lnk.content buf)).0 ≡ false)
      ↔ Targets (to_lowercase u (Lnk.extract_strings buf))
unfolding Lnk.analyze Lnk.findings_of
link-verdict u buf e =
    let text = Lnk.extract_strings buf in
    let t = to_lowercase u text in
    let run = checks-passed t text Lnk.suspicious_cmdline Lnk.suspicious_paths in
    iff_trans (false_iff _ _ (rw e run)) (
      or_iff _ _ (Has-iff t Lnk.suspicious_cmdline)
        (or_iff _ _ (Has-iff t Lnk.suspicious_paths) (is_unc-IsUnc t)))
