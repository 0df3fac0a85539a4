-- ===== src/Base/Utf8.antt =====
-- UTF-8: the bytes of a text (`as_bytes`), and `str::from_utf8(bytes).is_ok()`.
use Prim.Native.Nat.{ℕ, zero, suc, ◌+◌, ◌/◌, ◌%◌, ◌≤◌, ◌<◌}
use mathlib.Core.Path.{◌≡◌, refl}
use mathlib.Core.Bool.{Bool, true, false, ◌&&◌}
use mathlib.Core.Option.{Option, none, some}
use mathlib.Core.List.{List, [], ◌∷◌, ◌++◌}
use native.Mathlib.Omega.{arith}
use keysas.Base.Tests.{ltb, leb, if◌then◌else◌}
use keysas.Base.Lists.{All}
use keysas.Base.Strings.{Text}

abbrev pub Bytes : Type 0
Bytes = List ℕ

abbrev byte_after : ℕ → ℕ
byte_after n = 128 + n % 64

encode_char : ℕ → Bytes
encode_char c =
    if ltb c 0x80
    then c ∷ []
    else if ltb c 0x800
    then (192 + c / 64) ∷ byte_after c ∷ []
    else if ltb c 0x10000
    then (224 + c / 4096) ∷ byte_after (c / 64) ∷ byte_after c ∷ []
    else (240 + c / 262144) ∷ byte_after (c / 4096) ∷ byte_after (c / 64) ∷ byte_after c ∷ []

unfoldable pub utf8 : Text → Bytes
unfolding encode_char
utf8 [] = []
utf8 (c ∷ s) = encode_char c ++ utf8 s

-- How many bytes follow a first byte, and the range of the next one.
pub record Pending : Type 0 where
  pub left : ℕ
  pub lo : ℕ
  pub hi : ℕ

first_byte : ℕ → Option Pending
first_byte b =
    if ltb b 0x80
    then some (record { left = 0; lo = 0; hi = 0 })
    else if ltb b 0xc2
    then none
    else if ltb b 0xe0
    then some (record { left = 1; lo = 0x80; hi = 0xbf })
    else if ltb b 0xe1
    then some (record { left = 2; lo = 0xa0; hi = 0xbf })
    else if ltb b 0xed
    then some (record { left = 2; lo = 0x80; hi = 0xbf })
    else if ltb b 0xee
    then some (record { left = 2; lo = 0x80; hi = 0x9f })
    else if ltb b 0xf0
    then some (record { left = 2; lo = 0x80; hi = 0xbf })
    else if ltb b 0xf1
    then some (record { left = 3; lo = 0x90; hi = 0xbf })
    else if ltb b 0xf4
    then some (record { left = 3; lo = 0x80; hi = 0xbf })
    else if ltb b 0xf5
    then some (record { left = 3; lo = 0x80; hi = 0x8f })
    else none

utf8_from : ℕ → ℕ → ℕ → Bytes → Bool
utf8_from zero lo hi [] = true
utf8_from (suc n) lo hi [] = false
utf8_from zero lo hi (b ∷ s) = elim (first_byte b) [
  | none ↦ false
  | some p ↦ utf8_from p.left p.lo p.hi s
]
utf8_from (suc n) lo hi (b ∷ s) = (leb lo b && leb b hi) && utf8_from n 0x80 0xbf s

unfoldable pub is_utf8 : Bytes → Bool
unfolding utf8_from first_byte
is_utf8 s = utf8_from 0 0 0 s

-- ASCII bytes in front change nothing.
utf8_from-ascii :
    (p s : Bytes) (lo hi : ℕ)
    → All (λ b. b < 128) p
    → utf8_from 0 lo hi (p ++ s) ≡ utf8_from 0 0 0 s
unfolding utf8_from first_byte
utf8_from-ascii [] [] lo hi h = refl
utf8_from-ascii [] (b ∷ s) lo hi h = refl
utf8_from-ascii (b ∷ p) s lo hi h = ground (arith, utf8_from-ascii p s 0 0)

pub is_utf8-ascii : (p s : Bytes) → All (λ b. b < 128) p → is_utf8 (p ++ s) ≡ is_utf8 s
unfolding is_utf8
is_utf8-ascii p s h = utf8_from-ascii p s 0 0 h

pub is_utf8-nil : is_utf8 [] ≡ true
unfolding is_utf8
is_utf8-nil = refl

-- The first byte of a two-byte character on its own, and with a byte that completes it.
pub is_utf8_half : (c : ℕ) → 0xc2 ≤ c → c ≤ 0xdf → is_utf8 (c ∷ []) ≡ false
unfolding is_utf8
is_utf8_half c h k = ground arith

utf8_from_any : (lo hi : ℕ) (s : Bytes) → utf8_from 0 lo hi s ≡ utf8_from 0 0 0 s
unfolding utf8_from
utf8_from_any lo hi [] = refl
utf8_from_any lo hi (b ∷ s) = refl

pub is_utf8_two :
    (c d : ℕ) (s : Bytes)
    → 0xc2 ≤ c
    → c ≤ 0xdf
    → 0x80 ≤ d
    → d ≤ 0xbf
    → is_utf8 (c ∷ d ∷ s) ≡ is_utf8 s
unfolding is_utf8
is_utf8_two c d s c1 c2 d1 d2 = ground (arith, utf8_from_any 0x80 0xbf s)
