-- ===== src/Base/Lists.antt =====
-- Lists measured by native numbers, predicates on all elements, and Boolean quantifiers.
use Prim.Native.Nat.{ℕ, zero, suc, ◌+◌, ◌≤◌}
use mathlib.Core.Path.{◌≡◌, refl, ap, ◌∙◌}
use mathlib.Core.Bool.{Bool, true, false, ◌&&◌, ◌||◌}
use mathlib.Core.List.{List, [], ◌∷◌, ◌++◌, map}
use mathlib.Core.Option.{Option, none, some}
use mathlib.Core.Logic.{inl, inr}
use native.Mathlib.Omega.{arith}
use keysas.Base.Tests.{Bool-cases}

module _ {ℓ} {A : Type ℓ} where
  abbrev pub length : List A → ℕ
  length [] = 0
  length (x ∷ xs) = suc (length xs)

  abbrev pub take : ℕ → List A → List A
  take zero xs = []
  take (suc n) [] = []
  take (suc n) (x ∷ xs) = x ∷ take n xs

  abbrev pub drop : ℕ → List A → List A
  drop zero xs = xs
  drop (suc n) [] = []
  drop (suc n) (x ∷ xs) = drop n xs

  abbrev pub is_empty : List A → Bool
  is_empty [] = true
  is_empty (x ∷ xs) = false

  -- The test `any`, and the property that it decides.
  abbrev pub any : (A → Bool) → List A → Bool
  any p [] = false
  any p (x ∷ xs) = p x || any p xs

  abbrev pub all : (A → Bool) → List A → Bool
  all p [] = true
  all p (x ∷ xs) = p x && all p xs

  abbrev pub retain : (A → Bool) → List A → List A
  retain p [] = []
  retain p (x ∷ xs) = let rest = retain p xs in elim (p x) [ true ↦ x ∷ rest | false ↦ rest ]

  abbrev pub All {κ} : (A → Type κ) → List A → Type κ
  All P [] = Unit
  All P (x ∷ xs) = P x × All P xs

  pub length-append : (xs ys : List A) → length (xs ++ ys) ≡ length xs + length ys
  length-append [] ys = omega arith
  length-append (x ∷ xs) ys = omega (arith, length-append xs ys)

  pub length-retain : (p : A → Bool) (xs : List A) → length (retain p xs) ≤ length xs
  length-retain p [] = omega arith
  length-retain p (x ∷ xs) = ground (arith, length-retain p xs)

  pub any-append : (p : A → Bool) (xs ys : List A) → any p (xs ++ ys) ≡ (any p xs || any p ys)
  any-append p [] ys = refl
  any-append p (x ∷ xs) ys = ground (arith, any-append p xs ys)

  -- `take` at the length of a prefix and what follows it.
  pub take-append : (xs ys : List A) (k : ℕ) → take (length xs + k) (xs ++ ys) ≡ xs ++ take k ys
  take-append [] ys k = ap (λ n. take n ys) (omega arith)
  take-append (x ∷ xs) ys k =
      let e : suc (length xs) + k ≡ suc (length xs + k) = omega arith in
      ap (λ n. take n (x ∷ xs ++ ys)) e ∙ ap (λ l. x ∷ l) (take-append xs ys k)

abbrev pub filter_map {ℓ κ} : {A : Type ℓ} {B : Type κ} → (A → Option B) → List A → List B
filter_map f [] = []
filter_map f (x ∷ xs) = let rest = filter_map f xs in elim (f x) [ none ↦ rest | some y ↦ y ∷ rest ]

module _ {ℓ κ} {A : Type ℓ} (P : A → Type κ) where
  pub All-append : (xs ys : List A) → All P xs → All P ys → All P (xs ++ ys)
  All-append [] ys hx hy = hy
  All-append (x ∷ xs) ys (h, hx) hy = (h, All-append xs ys hx hy)

  -- What holds of all that a map, a partial map or a filter makes of a list.
  module _ {μ ν} {B : Type μ} (Q : B → Type ν) where
    pub All-map :
        (f : B → A) (xs : List B) → ((b : B) → Q b → P (f b)) → All Q xs → All P (map f xs)
    All-map f [] h hs = tt
    All-map f (x ∷ xs) h (q, hs) = (h x q, All-map f xs h hs)

    keep_some :
        (o : Option A) (rest : List A)
        → ((a : A) → o ≡ some a → P a)
        → All P rest
        → All P (elim o [ none ↦ rest | some a ↦ a ∷ rest ])
    keep_some none rest h hs = hs
    keep_some (some a) rest h hs = (h a refl, hs)

    pub All-filter_map :
        (f : B → Option A) (xs : List B)
        → ((b : B) (a : A) → Q b → f b ≡ some a → P a)
        → All Q xs
        → All P (filter_map f xs)
    All-filter_map f [] h hs = tt
    All-filter_map f (x ∷ xs) h (q, hs) =
        keep_some (f x) (filter_map f xs) (λ a e. h x a q e) (All-filter_map f xs h hs)

module _ {ℓ κ ν} {A : Type ℓ} (Q : A → Type κ) (P : A → Type ν) (p : A → Bool) where
  pub All-retain :
      (xs : List A) → ((x : A) → Q x → p x ≡ true → P x) → All Q xs → All P (retain p xs)
  All-retain [] h hs = tt
  All-retain (x ∷ xs) h (q, hs) = elim (Bool-cases (p x)) [
    | inl holds ↦ rw (holds, retain) (h x q holds, All-retain xs h hs)
    | inr fails ↦ rw (fails, retain) (All-retain xs h hs)
  ]
