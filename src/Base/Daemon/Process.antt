-- ===== src/Base/Daemon/Process.antt =====
-- Sequencing in a process that may exit.
use mathlib.Core.Path.{◌≡◌, refl}
use mathlib.Core.Logic.{◌⊎◌, inl, inr}
use mathlib.Core.Bool.{Bool, true, false}
use mathlib.Core.Option.{Option, none, some}
use keysas.Base.Daemon.{Live, exited, live}

infixl 5 ◌>>=◌ ◌>>◌
abbrev pub ◌>>=◌ {ℓ κ} : {A : Type ℓ} {B : Type κ} → Live A → (A → Live B) → Live B
exited >>= f = exited
live a >>= f = f a

abbrev pub ◌>>◌ {ℓ} : {B : Type ℓ} → Live (Unit {0}) → Live B → Live B
m >> k = m >>= λ _. k

-- Where the source exits unless a call succeeds.
abbrev pub or_exit {ℓ} : {A : Type ℓ} → Option A → Live A
or_exit none = exited
or_exit (some a) = live a

abbrev pub must : Bool → Live (Unit {0})
must true = live tt
must false = exited

pub >>=-eq-live {ℓ κ} :
    {A : Type ℓ} {B : Type κ} (m : Live A) (f : A → Live B) {b : B}
    → (m >>= f) ≡ live b
    → (a : A) × (m ≡ live a) × (f a ≡ live b)
>>=-eq-live exited f h = cc
>>=-eq-live (live a) f h = (a, refl, h)

pub Live-cases {ℓ} : {A : Type ℓ} (m : Live A) → (m ≡ exited) ⊎ ((a : A) × (m ≡ live a))
Live-cases exited = inl refl
Live-cases (live a) = inr (a, refl)
