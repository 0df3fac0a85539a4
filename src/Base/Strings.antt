-- ===== src/Base/Strings.antt =====
-- Text as the list of its characters (code points), and the `str` methods that the source calls.
use Prim.Native.Nat.{ℕ, zero, suc, ◌+◌, ◌/◌, ◌%◌}
use Prim.Native.Char.{code}
use Prim.Native.String.{String}
use mathlib.Core.Path.{◌≡◌, refl, ap, ◌∙◌}
use mathlib.Core.Logic.{◌↔◌}
use mathlib.Core.Bool.{Bool, true, false, ◌&&◌, ◌||◌}
use mathlib.Core.List.{List, [], ◌∷◌, ◌++◌, append-nil, append_assoc}
use native.Mathlib.Omega.{arith}
use keysas.Base.Lists.{All}
use keysas.Base.Tests.{ltb, leb, ◌==◌, if◌then◌else◌, ==_iff}

abbrev pub Text : Type 0
Text = List ℕ

-- The characters of a literal.
abbrev pub codes : String → Text
codes String.[] = []
codes (String.◌∷◌ c s) = code c ∷ codes s

-- `a == b` on `str`.
unfoldable pub text_eq : Text → Text → Bool
text_eq [] [] = true
text_eq (a ∷ s) (b ∷ t) = a == b && text_eq s t
text_eq _ _ = false

pub text_eq-eq : (s t : Text) → text_eq s t ≡ true → s ≡ t
unfolding text_eq
text_eq-eq [] [] h = refl
text_eq-eq [] (b ∷ t) h = cc
text_eq-eq (a ∷ s) [] h = cc
text_eq-eq (a ∷ s) (b ∷ t) h = ground (arith, text_eq-eq s t)

pub text_eq_refl : (s : Text) → text_eq s s ≡ true
unfolding text_eq
text_eq_refl [] = refl
text_eq_refl (a ∷ s) = ground (arith, text_eq_refl s)

pub text_eq_iff : (s t : Text) → (text_eq s t ≡ true) ↔ (s ≡ t)
text_eq_iff s t = (text_eq-eq s t, λ e. rw e (text_eq_refl t))

-- `list.contains(&s)` on a slice of strings.
unfoldable pub mem_text : Text → List Text → Bool
unfolding text_eq
mem_text s [] = false
mem_text s (t ∷ ts) = text_eq s t || mem_text s ts

-- `s.starts_with(p)`
unfoldable pub starts_with : Text → Text → Bool
starts_with s [] = true
starts_with [] (b ∷ p) = false
starts_with (a ∷ s) (b ∷ p) = a == b && starts_with s p

-- `s.contains(p)`: at some position `s` goes on with `p`.
unfoldable pub contains : Text → Text → Bool
unfolding starts_with
contains [] p = starts_with [] p
contains (a ∷ s) p = starts_with (a ∷ s) p || contains s p

-- `s.ends_with(p)`
unfoldable pub ends_with : Text → Text → Bool
unfolding text_eq
ends_with [] p = text_eq [] p
ends_with (a ∷ s) p = text_eq (a ∷ s) p || ends_with s p

-- `parts.join(sep)`
unfoldable pub join : Text → List Text → Text
join sep [] = []
join sep (t ∷ []) = t
join sep (t ∷ u ∷ ts) = t ++ sep ++ join sep (u ∷ ts)

-- `s.split(sep)` at one character: always at least one part.
split_from : ℕ → Text → Text → List Text
split_from sep acc [] = acc ∷ []
split_from sep acc (c ∷ s) = elim (c == sep) [
  | true ↦ acc ∷ split_from sep [] s
  | false ↦ split_from sep (acc ++ c ∷ []) s
]

unfoldable pub split : ℕ → Text → List Text
unfolding split_from
split sep s = split_from sep [] s

abbrev pub HasNo : ℕ → Text → Type 0
HasNo sep s = All (λ c. (c == sep) ≡ false) s

split_from-none : (sep : ℕ) (s acc : Text) → HasNo sep s → split_from sep acc s ≡ (acc ++ s) ∷ []
unfolding split_from
split_from-none sep [] acc h = rw append-nil
split_from-none sep (c ∷ s) acc h =
    rw (h.0, split_from)
      (split_from-none sep s (acc ++ c ∷ []) h.1 ∙ ap (λ l. l ∷ []) (append_assoc acc (c ∷ []) s))

split_from-append :
    (sep : ℕ) (s t acc : Text)
    → HasNo sep s
    → split_from sep acc (s ++ sep ∷ t) ≡ (acc ++ s) ∷ split_from sep [] t
unfolding split_from
split_from-append sep [] t acc h = rw (append-nil, (==_iff sep sep).1 refl, split_from)
split_from-append sep (c ∷ s) t acc h =
    rw (h.0, split_from)
      (split_from-append sep s t (acc ++ c ∷ []) h.1
        ∙ ap (λ l. l ∷ split_from sep [] t) (append_assoc acc (c ∷ []) s))

-- A text without the separator is its only part.
pub split-HasNo : (sep : ℕ) (s : Text) → HasNo sep s → split sep s ≡ s ∷ []
unfolding split
split-HasNo sep s h = split_from-none sep s [] h

-- Two texts without the separator, joined by it, are split into the two.
pub split-pair :
    (sep : ℕ) (s t : Text) → HasNo sep s → HasNo sep t → split sep (s ++ sep ∷ t) ≡ s ∷ t ∷ []
unfolding split
split-pair sep s t hs ht =
    split_from-append sep s t [] hs ∙ ap (λ l. s ∷ l) (split_from-none sep t [] ht)

-- `str::to_lowercase`. What it does to a character outside ASCII comes from the Unicode tables and
-- may depend on its neighbours (the final sigma): a parameter, given what stands before (last
-- first), the character, and what follows.
abbrev pub Unicode : Type 0
Unicode = Text → ℕ → Text → Text

abbrev ascii_lower : ℕ → ℕ
ascii_lower c = if leb 65 c && leb c 90 then c + 32 else c

lower_from : Unicode → Text → Text → Text
lower_from u before [] = []
lower_from u before (c ∷ s) =
    (if ltb c 128 then ascii_lower c ∷ [] else u before c s) ++ lower_from u (c ∷ before) s

unfoldable pub to_lowercase : Unicode → Text → Text
unfolding lower_from
to_lowercase u s = lower_from u [] s

-- A number in decimal, as `{}` prints it. A number has at most as many digits as its value, plus one.
digits_of : ℕ → ℕ → Text
digits_of zero n = []
digits_of (suc f) n =
    let front = digits_of f (n / 10) in
    if ltb n 10 then (n + 48) ∷ [] else front ++ (n % 10 + 48) ∷ []

unfoldable pub decimal : ℕ → Text
unfolding digits_of
decimal n = digits_of (n + 1) n
