-- ===== src/Base/Results.antt =====
-- `Result<T, anyhow::Error>`, its `?` and the ways the source makes an error.
use mathlib.Core.Path.{◌≡◌, refl}
use mathlib.Core.Bool.{Bool, true, false}
use mathlib.Core.Option.{Option, none, some}
use keysas.Base.Strings.{Text}

-- An error that the source words itself (the literal part of its text), and one of a library or of
-- the system that `?` passes on.
pub data Error : Type 0 where
  message : Text → Error
  library : Error

pub data Result {ℓ} (T : Type ℓ) : Type ℓ where
  err : Error → Result T
  ok : T → Result T

-- `.ok_or(e)?`
abbrev pub or_err {ℓ} : {T : Type ℓ} → Option T → Error → Result T
or_err (some t) e = ok t
or_err none e = err e

-- `return Err(e)` unless a test holds.
abbrev pub ensure : Bool → Error → Result (Unit {0})
ensure test e = elim test [ false ↦ err e | true ↦ ok tt ]

infixl 5 ◌>>◌ ◌>>=◌
abbrev pub ◌>>=◌ {ℓ κ} : {S : Type ℓ} {T : Type κ} → Result S → (S → Result T) → Result T
first >>= next = elim first [ err e ↦ err e | ok s ↦ next s ]

abbrev pub ◌>>◌ {κ} : {T : Type κ} → Result (Unit {0}) → Result T → Result T
first >> next = first >>= λ done. next

pub >>=-eq-ok {ℓ κ} :
    {S : Type ℓ} {T : Type κ} (first : Result S) (next : S → Result T) {t : T}
    → (first >>= next) ≡ ok t
    → (s : S) × (first ≡ ok s) × (next s ≡ ok t)
>>=-eq-ok (err e) next h = cc
>>=-eq-ok (ok s) next h = (s, refl, h)

module _ {ℓ} {T : Type ℓ} where
  abbrev pub is_ok : Result T → Bool
  is_ok (err _) = false
  is_ok (ok _) = true

  pub ensure-eq-ok :
      (test : Bool) (e : Error) (next : Result T) {t : T}
      → (ensure test e >> next) ≡ ok t
      → (test ≡ true) × (next ≡ ok t)
  ensure-eq-ok false e next h = cc
  ensure-eq-ok true e next h = (refl, h)

  pub or_err-eq-ok : (o : Option T) (e : Error) {t : T} → or_err o e ≡ ok t → o ≡ some t
  or_err-eq-ok (some s) e h = cc
  or_err-eq-ok none e h = cc

  pub ok-injective : {s t : T} → ok s ≡ ok t → s ≡ t
  ok-injective h = cc
