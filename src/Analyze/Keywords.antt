-- ===== src/Analyze/Keywords.antt =====
-- The counting of keywords in pdf.rs: what the count says, its bound, and the fuel of its loop.
use keysas.Base.{
  ℕ, zero, suc, ◌+◌, ◌-◌, ◌*◌, ◌≤◌, ◌<◌, ◌≡◌, ◌↔◌, refl, sym, ap, ◌∙◌, lt→ltb, Bool, true, false,
  not, ◌&&◌, ◌||◌, Option, none, some, inl, inr, Bool-cases, Option-cases, List, [], ◌∷◌, ◌++◌,
  Bytes, any, Some, length, drop, ltb, is_empty, contains, starts_with, prefix_of_starts_with,
  length-append, if◌then◌else◌, arith,
}
use keysas.Analyze.Findings.{Findings, no_findings, for_each, passed-for_each}
use keysas.Analyze.Verdicts.{Has, Has-iff, false_iff, iff_trans}
use keysas.Analyze.Pdf.{
  position, count_from, count_occurrences, blocking_keywords, info_keywords, check_blocking,
  check_info, note_pages, findings_of,
}
use keysas.Analyze.Pdf

is_found : Option ℕ → Bool
is_found none = false
is_found (some n) = true

-- What one step of the search makes of the rest's answer.
abbrev next : Bool → Option ℕ → Option ℕ
next b o = if b then some 0 else elim o [ none ↦ none | some n ↦ some (suc n) ]

is_found-next : (b : Bool) (o : Option ℕ) → is_found (next b o) ≡ (b || is_found o)
unfolding is_found
is_found-next true o = refl
is_found-next false none = refl
is_found-next false (some n) = refl

is_found-position : (needle h : Bytes) → is_found (position needle h) ≡ contains h needle
unfolding position contains is_found
is_found-position needle [] = elim (Bool-cases (starts_with [] needle)) [
  | inl e ↦ rw e refl
  | inr e ↦ rw e refl
]
is_found-position needle (x ∷ h) =
    is_found-next (starts_with (x ∷ h) needle) (position needle h)
    ∙ ap (λ b. starts_with (x ∷ h) needle || b) (is_found-position needle h)

length-drop : {A : Type 0} (n : ℕ) (xs : List A) → length (drop n xs) ≡ length xs - n
length-drop zero xs = omega arith
length-drop (suc n) [] = omega arith
length-drop (suc n) (x ∷ xs) = omega (arith, length-drop n xs)

prefix_length : (h needle : Bytes) → starts_with h needle ≡ true → length needle ≤ length h
prefix_length h needle e =
    let (after, same) = prefix_of_starts_with h needle e in
    let l = length-append needle after in
    let m : length h ≡ length (needle ++ after) = ap length same in omega (arith, l, m)

next_end :
    (b : Bool) (o : Option ℕ) (m l k : ℕ)
    → (b ≡ true → m ≤ suc l)
    → ((j : ℕ) → o ≡ some j → j + m ≤ l)
    → next b o ≡ some k
    → k + m ≤ suc l
next_end true o m l k here later e = let a = here refl in ground arith
next_end false none m l k here later e = ground arith
next_end false (some j) m l k here later e = let a = later j refl in ground arith

position_end :
    (needle h : Bytes) (k : ℕ) → position needle h ≡ some k → k + length needle ≤ length h
unfolding position
position_end needle [] k e = elim (Bool-cases (starts_with [] needle)) [
  | inl here ↦ let a = prefix_length [] needle here in ground arith
  | inr away ↦ ground arith
]
position_end needle (x ∷ h) k e =
    next_end (starts_with (x ∷ h) needle) (position needle h) (length needle) (length h) k
      (prefix_length (x ∷ h) needle) (position_end needle h) e

room : (c m k l d : ℕ) → c * m ≤ d → d ≡ l - (k + m) → k + m ≤ l → suc c * m ≤ l
room c m k l d a b e = omega arith

count_bound : (fuel : ℕ) (h needle : Bytes) → count_from fuel h needle * length needle ≤ length h
unfolding count_from
count_bound zero h needle = omega arith
count_bound (suc fuel) h needle = elim (Option-cases (position needle h)) [
  | inl n ↦ rw (n, count_from) (omega arith)
  | inr (k, e) ↦
      let ih = count_bound fuel (drop (k + length needle) h) needle in
      let l = length-drop (k + length needle) h in
      let r = position_end needle h k e in
      rw (e, count_from)
        (room (count_from fuel (drop (k + length needle) h) needle) (length needle) k (length h) _
          ih l r)
]

-- The fuel of the loop is enough: more than the length of the haystack gives the same count.
count_fuel :
    (f g : ℕ) (h needle : Bytes)
    → 0 < length needle
    → length h < f
    → length h < g
    → count_from f h needle ≡ count_from g h needle
unfolding count_from
count_fuel zero g h needle pos a b = absurd (omega arith)
count_fuel (suc f) zero h needle pos a b = absurd (omega arith)
count_fuel (suc f) (suc g) h needle pos a b = elim (Option-cases (position needle h)) [
  | inl n ↦ rw (n, count_from) refl
  | inr (k, e) ↦
      let l = length-drop (k + length needle) h in
      let r = position_end needle h k e in
      let ih = count_fuel f g (drop (k + length needle) h) needle pos (omega arith) (omega arith) in
      rw (e, count_from) (ap (λ n. suc n) ih)
]

is_empty-length : (n : Bytes) → is_empty n ≡ false → 0 < length n
is_empty-length [] e = absurd (ground arith)
is_empty-length (x ∷ n) e = omega arith

positive_count :
    (h needle : Bytes)
    → is_empty needle ≡ false
    → ltb 0 (count_occurrences h needle) ≡ contains h needle
unfolding count_occurrences count_from is_found
positive_count h needle e = elim (Option-cases (position needle h)) [
  | inl n ↦ rw (e, n, count_from) (sym (ap is_found n) ∙ is_found-position needle h)
  | inr (k, p) ↦
      rw (e, p, count_from)
        (lt→ltb 0 _ (omega arith) ∙ sym (ap is_found p) ∙ is_found-position needle h)
]

-- However often the needle is counted in the haystack, so many copies of it fit in there, since no two
-- overlap; and any number of rounds above the haystack's length counts the same.
pub count_occurrences-bound :
    (h needle : Bytes) (fuel : ℕ)
    → is_empty needle ≡ false
    → length h < fuel
    → (count_occurrences h needle * length needle ≤ length h)
      × (count_occurrences h needle ≡ count_from fuel h needle)
unfolding count_occurrences
count_occurrences-bound h needle fuel e enough = (
  rw e (count_bound (suc (length h)) h needle),
  rw e (count_fuel (suc (length h)) fuel h needle (is_empty-length needle e) (omega arith) enough),
)

keyword_bad : Bytes → Bytes → Bool
keyword_bad buf kw = ltb 0 (count_occurrences buf kw)

passed-check_blocking :
    (buf kw : Bytes) (f : Findings)
    → (check_blocking buf kw f).passed ≡ (f.passed && not (keyword_bad buf kw))
unfolding check_blocking keyword_bad
passed-check_blocking buf kw f = ground arith

passed-check_info :
    (buf kw : Bytes) (f : Findings) → (check_info buf kw f).passed ≡ (f.passed && not false)
unfolding check_info
passed-check_info buf kw f = ground arith

passed-note_pages : (buf : Bytes) (f : Findings) → (note_pages buf f).passed ≡ f.passed
unfolding note_pages
passed-note_pages buf f = ground arith

any_none : {A : Type 0} (xs : List A) → any (λ _. false) xs ≡ false
any_none [] = refl
any_none (x ∷ xs) = any_none xs

any_keywords :
    (buf : Bytes) (kws : List Bytes)
    → any is_empty kws ≡ false
    → any (keyword_bad buf) kws ≡ any (contains buf) kws
unfolding keyword_bad
any_keywords buf [] e = refl
any_keywords buf (kw ∷ kws) e =
    let a = positive_count buf kw (ground arith) in
    let b = any_keywords buf kws (ground arith) in ground arith

keywords-passed :
    (buf : Bytes) (kws infos : List Bytes)
    → any is_empty kws ≡ false
    → (note_pages buf
        (for_each (check_info buf) infos (for_each (check_blocking buf) kws no_findings))).passed
      ≡ not (any (contains buf) kws)
keywords-passed buf kws infos e =
    let f1 = for_each (check_blocking buf) kws no_findings in
    let f2 = for_each (check_info buf) infos f1 in
    let e1 =
      passed-for_each (check_blocking buf) (keyword_bad buf) (passed-check_blocking buf) kws
        no_findings in
    let e2 = passed-for_each (check_info buf) (λ _. false) (passed-check_info buf) infos f1 in
    let n = any_none infos in
    let k = any_keywords buf kws e in passed-note_pages buf f2 ∙ ground arith

-- A PDF that can be read is failed just when its bytes hold one of the blocking keywords.
pub pdf-verdict :
    (buf : Bytes) → ((Pdf.analyze (some buf)).0 ≡ false) ↔ Some (Has buf) blocking_keywords
unfolding Pdf.analyze findings_of
pdf-verdict buf =
    iff_trans
      (false_iff _ (any (contains buf) blocking_keywords)
        (keywords-passed buf blocking_keywords info_keywords refl))
      (Has-iff buf blocking_keywords)
