-- ===== src/Base/Substring.antt =====
-- Where one text or byte string lies in another, and "some element of a list".
use mathlib.Core.Path.{◌≡◌, refl, ap, ◌∙◌}
use mathlib.Core.Logic.{◌↔◌, ◌⊎◌, inl, inr}
use mathlib.Core.Bool.{Bool, true, false, ◌||◌}
use mathlib.Core.List.{List, [], ◌∷◌, ◌++◌}
use native.Mathlib.Omega.{arith}
use keysas.Base.Lists.{any}
use keysas.Base.Strings.{Text, starts_with, contains}

-- Some element has the property.
abbrev pub Some {ℓ} : {A : Type ℓ} → (A → Type 0) → List A → Type 0
Some P [] = ⊥
Some P (x ∷ xs) = P x ⊎ Some P xs

or_cases : (a b : Bool) → (a || b) ≡ true → (a ≡ true) ⊎ (b ≡ true)
or_cases true b h = inl refl
or_cases false b h = inr h

or_left : (a b : Bool) → a ≡ true → (a || b) ≡ true
or_left a b h = ground arith

or_right : (a b : Bool) → b ≡ true → (a || b) ≡ true
or_right a b h = ground arith

module _ {ℓ} {A : Type ℓ} (p : A → Bool) (P : A → Type 0) (h : (a : A) → (p a ≡ true) ↔ P a) where
  Some-of_any : (xs : List A) → any p xs ≡ true → Some P xs
  Some-of_any [] e = absurd (ground arith)
  Some-of_any (x ∷ xs) e = elim (or_cases (p x) (any p xs) e) [
    | inl here ↦ inl ((h x).0 here)
    | inr later ↦ inr (Some-of_any xs later)
  ]

  any_of_Some : (xs : List A) → Some P xs → any p xs ≡ true
  any_of_Some [] s = absurd s
  any_of_Some (x ∷ xs) (inl here) = or_left (p x) (any p xs) ((h x).1 here)
  any_of_Some (x ∷ xs) (inr later) = or_right (p x) (any p xs) (any_of_Some xs later)

  pub any-Some : (xs : List A) → (any p xs ≡ true) ↔ Some P xs
  any-Some xs = (Some-of_any xs, any_of_Some xs)

-- `p` is a part of `s`.
abbrev pub Within : Text → Text → Type 0
Within p s = (before : Text) × (after : Text) × (s ≡ before ++ (p ++ after))

pub prefix_of_starts_with :
    (s p : Text) → starts_with s p ≡ true → (after : Text) × (s ≡ p ++ after)
unfolding starts_with
prefix_of_starts_with s [] e = (s, refl)
prefix_of_starts_with [] (b ∷ p) e = absurd (ground arith)
prefix_of_starts_with (a ∷ s) (b ∷ p) e =
    let same : a ≡ b = ground arith in
    let (after, rest) = prefix_of_starts_with s p (ground arith) in (after, cc (same, rest))

pub starts_with-append : (p after : Text) → starts_with (p ++ after) p ≡ true
unfolding starts_with
starts_with-append [] after = refl
starts_with-append (b ∷ p) after = ground (arith, starts_with-append p after)

Within-of_contains : (s p : Text) → contains s p ≡ true → Within p s
unfolding contains
Within-of_contains [] p e = let (after, same) = prefix_of_starts_with [] p e in ([], after, same)
Within-of_contains (a ∷ s) p e = elim (or_cases (starts_with (a ∷ s) p) (contains s p) e) [
  | inl here ↦ let (after, same) = prefix_of_starts_with (a ∷ s) p here in ([], after, same)
  | inr later ↦
      let (before, after, same) = Within-of_contains s p later in
      (a ∷ before, after, ap (λ t. a ∷ t) same)
]

contains_of_starts_with : (s p : Text) → starts_with s p ≡ true → contains s p ≡ true
unfolding contains
contains_of_starts_with [] p h = h
contains_of_starts_with (a ∷ s) p h = or_left (starts_with (a ∷ s) p) (contains s p) h

contains-append : (before p after : Text) → contains (before ++ (p ++ after)) p ≡ true
unfolding contains
contains-append [] p after = contains_of_starts_with (p ++ after) p (starts_with-append p after)
contains-append (a ∷ before) p after =
    or_right (starts_with (a ∷ before ++ (p ++ after)) p) _ (contains-append before p after)

pub contains-Within : (s p : Text) → (contains s p ≡ true) ↔ Within p s
contains-Within s p = (
  Within-of_contains s p,
  (λ (before, after, same). ap (λ t. contains t p) same ∙ contains-append before p after),
)
