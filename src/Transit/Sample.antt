-- ===== src/Transit/Sample.antt =====
-- `is_likely_text` against its description: no NUL byte, and valid UTF-8.
use keysas.Base.{
  ℕ, zero, suc, ◌+◌, ◌≤◌, ◌<◌, ◌≡◌, refl, sym, ap, ◌∙◌, Bool, true, false, not, ◌&&◌, ◌||◌, [], ◌∷◌,
  ◌++◌, Bytes, ◌↔◌, length, take, take-append, is_empty, any, any-append, All, is_utf8,
  is_utf8-ascii, is_utf8-nil, is_utf8_half, is_utf8_two, ◌==◌, arith,
}
use mathlib.Core.List.{append-nil}
use keysas.Transit.FileType.{is_likely_text}

take_all : (n : ℕ) (xs : Bytes) → length xs ≤ n → take n xs ≡ xs
take_all zero [] h = refl
take_all zero (x ∷ xs) h = absurd (omega arith)
take_all (suc n) [] h = refl
take_all (suc n) (x ∷ xs) h = ap (λ l. x ∷ l) (take_all n xs (omega arith))

-- The test with a sample of any size; the source takes 8192 bytes.
text_of : ℕ → Bytes → Bool
text_of n b = is_empty b || (not (any (λ x. x == 0) (take n b)) && is_utf8 (take n b))

is_likely_text-eq : (b : Bytes) → is_likely_text b ≡ text_of 8192 b
unfolding is_likely_text text_of
is_likely_text-eq [] = refl
is_likely_text-eq (x ∷ xs) = refl

not_and : (a b : Bool) → ((not a && b) ≡ true) ↔ ((a ≡ false) × (b ≡ true))
not_and a b = ground arith

and_false : (a b : Bool) → b ≡ false → (a && b) ≡ false
and_false a b h = ground arith

text_of_iff :
    (n : ℕ) (b : Bytes)
    → length b ≤ n
    → (text_of n b ≡ true) ↔ ((any (λ x. x == 0) b ≡ false) × (is_utf8 b ≡ true))
unfolding text_of
text_of_iff n [] h = ((λ _. (refl, is_utf8-nil)), (λ _. refl))
text_of_iff n (x ∷ xs) h =
    rw (take_all n (x ∷ xs) h) (not_and (any (λ x. x == 0) (x ∷ xs)) (is_utf8 (x ∷ xs)))

-- Of at most 8192 bytes, exactly those that are valid UTF-8 with no NUL byte count as text.
pub is_likely_text_iff :
    (b : Bytes)
    → length b ≤ 8192
    → (is_likely_text b ≡ true) ↔ ((any (λ x. x == 0) b ≡ false) × (is_utf8 b ≡ true))
is_likely_text_iff b h = rw is_likely_text-eq (text_of_iff 8192 b h)

abbrev pub IsPlain : ℕ → Type 0
IsPlain x = (0 < x) × (x < 128)

any_zero : (p : Bytes) → All IsPlain p → any (λ x. x == 0) p ≡ false
any_zero [] h = refl
any_zero (x ∷ p) h = ground (arith, any_zero p h.1)

All-ascii : (p : Bytes) → All IsPlain p → All (λ x. x < 128) p
All-ascii [] h = tt
All-ascii (x ∷ p) h = (h.0.1, All-ascii p h.1)

-- A two-byte character and ASCII are valid, its first byte alone is not.
two_bytes :
    (c d : ℕ) (rest : Bytes)
    → 0xc2 ≤ c
    → c ≤ 0xdf
    → 0x80 ≤ d
    → d ≤ 0xbf
    → All IsPlain rest
    → is_utf8 (c ∷ d ∷ rest) ≡ true
two_bytes c d rest c1 c2 d1 d2 hr =
    is_utf8_two c d rest c1 c2 d1 d2
    ∙ ap is_utf8 (sym (append-nil rest))
    ∙ is_utf8-ascii rest [] (All-ascii rest hr)
    ∙ is_utf8-nil

cut :
    (n : ℕ) (p rest : Bytes) (c d : ℕ)
    → n ≡ length p + 1
    → All IsPlain p
    → 0xc2 ≤ c
    → c ≤ 0xdf
    → 0 < length p
    → text_of n (p ++ c ∷ d ∷ rest) ≡ false
unfolding text_of
cut n [] rest c d hn hp c1 c2 l = absurd (omega arith)
cut n (x ∷ p) rest c d hn hp c1 c2 l =
    let sample : take n (x ∷ p ++ c ∷ d ∷ rest) ≡ (x ∷ p) ++ c ∷ [] =
      ap (λ k. take k (x ∷ p ++ c ∷ d ∷ rest)) hn ∙ take-append (x ∷ p) (c ∷ d ∷ rest) 1 in
    let bad : is_utf8 (take n (x ∷ p ++ c ∷ d ∷ rest)) ≡ false =
      ap is_utf8 sample
      ∙ is_utf8-ascii (x ∷ p) (c ∷ []) (All-ascii (x ∷ p) hp)
      ∙ is_utf8_half c c1 c2 in
    and_false (not (any (λ x. x == 0) (take n (x ∷ p ++ c ∷ d ∷ rest)))) _ bad

-- A two-byte character that begins at the last byte of the sample: the whole buffer is valid UTF-8 with
-- no NUL byte, and is still taken not to be text. `p` and `rest` are any ASCII bytes but NUL, `p` of
-- length 8191, and `c`, `d` the two bytes.
pub is_likely_text_cut :
    (p rest : Bytes) (c d : ℕ)
    → length p ≡ 8191
    → All IsPlain p
    → All IsPlain rest
    → 0xc2 ≤ c
    → c ≤ 0xdf
    → 0x80 ≤ d
    → d ≤ 0xbf
    → (any (λ x. x == 0) (p ++ c ∷ d ∷ rest) ≡ false)
      × (is_utf8 (p ++ c ∷ d ∷ rest) ≡ true)
      × (is_likely_text (p ++ c ∷ d ∷ rest) ≡ false)
is_likely_text_cut p rest c d hl hp hr c1 c2 d1 d2 =
    let no_zero : any (λ x. x == 0) (p ++ c ∷ d ∷ rest) ≡ false =
      any-append (λ x. x == 0) p (c ∷ d ∷ rest)
      ∙ rw (any_zero p hp) (ground (arith, any_zero rest hr)) in
    (
      no_zero,
      is_utf8-ascii p (c ∷ d ∷ rest) (All-ascii p hp) ∙ two_bytes c d rest c1 c2 d1 d2 hr,
      is_likely_text-eq (p ++ c ∷ d ∷ rest)
          ∙ cut 8192 p rest c d (omega arith) hp c1 c2 (omega arith),
    )
