-- ===== src/Analyze/Findings.antt =====
-- What the analyzers share: the two lists of findings with the verdict, the loops that fill them, and the
-- text of the summary, of which each analyzer has its own copy.
use keysas.Base.{
  ◌≡◌, ◌∙◌, Bool, true, false, not, ◌&&◌, ◌||◌, List, [], ◌∷◌, ◌++◌, Text, codes, join, any, arith,
}

-- The verdict and the summary.
abbrev pub Verdict : Type 0
Verdict = Bool × Text

pub record Findings : Type 0 where
  pub blocking : List Text
  pub info : List Text
  pub passed : Bool

abbrev pub no_findings : Findings
no_findings = record { blocking = []; info = []; passed = true }

abbrev pub alert : Text → Findings → Findings
alert text f = record f { blocking = f.blocking ++ text ∷ []; passed = false }

abbrev pub inform : Text → Findings → Findings
inform text f = record f { info = f.info ++ text ∷ [] }

-- `for x in xs { … }` over the findings.
unfoldable pub for_each {ℓ} :
    {A : Type ℓ} → (A → Findings → Findings) → List A → Findings → Findings
for_each body [] f = f
for_each body (x ∷ xs) f = for_each body xs (body x f)

unfoldable pub summary_of : Text → List Text → List Text → Text
unfolding join
summary_of nothing [] [] = nothing
summary_of nothing [] info = codes "info: " ++ join (codes "; ") info
summary_of nothing blocking [] = codes "ALERT: " ++ join (codes "; ") blocking
summary_of nothing blocking info =
    codes "ALERT: " ++ join (codes "; ") blocking ++ codes "; info: " ++ join (codes "; ") info

assoc : (a b c : Bool) → ((a && not b) && not c) ≡ (a && not (b || c))
assoc a b c = ground arith

-- A loop whose body fails the file at the bad elements only.
pub passed-for_each {ℓ} :
    {A : Type ℓ} (body : A → Findings → Findings) (bad : A → Bool)
    → ((x : A) (f : Findings) → (body x f).passed ≡ (f.passed && not (bad x)))
    → (xs : List A) (f : Findings) → (for_each body xs f).passed ≡ (f.passed && not (any bad xs))
unfolding for_each
passed-for_each body bad h [] f = ground arith
passed-for_each body bad h (x ∷ xs) f =
    passed-for_each body bad h xs (body x f) ∙ rw (h x f) (assoc f.passed (bad x) (any bad xs))
