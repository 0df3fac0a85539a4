-- ===== src/Io/Sides.antt =====
-- Which side of the station a device is used for, and the part of the challenge in it.
use keysas.Base.{
  All-append, ◌≡◌, refl, sym, ap, ◌∙◌, Bool, true, false, Option, none, some, List, [], ◌∷◌, ◌++◌,
  Text, mem_text, All, if◌then◌else◌, Result, ok, err,
}
use mathlib.Core.List.{append-nil, append_assoc}
use keysas.Io.Files.{Locks, busy_in, busy_out, ready_in, ready_out}
use keysas.Io.Station.{
  Effect, sent, challenged, copied_in, moved_out, Station, Probe, Act, continue_with, ◌then_do◌,
  skip, emit, send_keys, lock_with, push_in, push_out, take_in, challenge_then, new_unsigned,
  known_unsigned, new_signed, handle_device,
}

-- What may be done for a device, by whether it is signed.
abbrev pub Allowed : Bool → Effect → Type 0
Allowed signed (sent keys) = Unit
Allowed signed challenged = signed ≡ false
Allowed signed (copied_in device) = signed ≡ false
Allowed signed (moved_out device) = signed ≡ true

-- Only such effects are added.
abbrev pub Extends : Bool → Station → Station → Type 0
Extends signed s s' =
    (more : List Effect) × (s'.effects ≡ s.effects ++ more) × All (Allowed signed) more

module _ (signed : Bool) where
  abbrev Good : Act → Type 0
  Good act = (s : Station) → Extends signed s (act s).1

  Extends-same : (s : Station) → Extends signed s s
  Extends-same s = ([], sym (append-nil s.effects), tt)

  continue_with-Extends :
      (s : Station) (r : Result (Unit {0}) × Station) (b : Act)
      → Extends signed s r.1
      → Good b
      → Extends signed s (continue_with r b).1
  unfolding continue_with
  continue_with-Extends s (err e, s') b h g = h
  continue_with-Extends s (ok _, s') b (more, e, all) g =
      let (more', e', all') = g s' in
      (
        more ++ more',
        e' ∙ (ap (λ l. l ++ more') e ∙ append_assoc s.effects more more'),
        All-append (Allowed signed) more more' all all',
      )

  then_do-Good : (a b : Act) → Good a → Good b → Good (a then_do b)
  then_do-Good a b f g = λ s. continue_with-Extends s (a s) b (f s) g

  emit-Good : (e : Effect) (done : Bool) → Allowed signed e → Good (emit e done)
  emit-Good e done h = λ s. (e ∷ [], refl, (h, tt))

  lock-Good : (f : Locks → Result (Unit {0}) × Locks) → Good (lock_with f)
  lock-Good f = λ s. ([], sym (append-nil s.effects), tt)

  push_in-Good : (product : Text) → Good (push_in product)
  push_in-Good product = λ s. ([], sym (append-nil s.effects), tt)

  push_out-Good : (product : Text) → Good (push_out product)
  push_out-Good product = λ s. ([], sym (append-nil s.effects), tt)

  send_keys-Good : (done : Bool) → Good (send_keys done)
  send_keys-Good done = λ s. (sent _ ∷ [], refl, (tt, tt))

take_in-Good : (p : Probe) (device : Text) → Good false (take_in p device)
unfolding take_in
take_in-Good p device =
    then_do-Good false _ _ (emit-Good false (copied_in device) p.copies refl)
      (lock-Good false (ready_in p.io))

challenge_then-Good :
    (p : Probe) (device : Text) (user : Option Text) → Good false (challenge_then p device user)
unfolding challenge_then
challenge_then-Good p device none =
    then_do-Good false _ _ (emit-Good false challenged true refl) (lock-Good false (ready_in p.io))
challenge_then-Good p device (some name) =
    then_do-Good false _ _ (emit-Good false challenged true refl) (take_in-Good p device)

authenticated-Good :
    (yubikey : Bool) (p : Probe) (device : Text)
    → Good false (if yubikey then challenge_then p device p.challenge else take_in p device)
authenticated-Good true p device = challenge_then-Good p device p.challenge
authenticated-Good false p device = take_in-Good p device

new_unsigned-Good :
    (yubikey : Bool) (p : Probe) (product device : Text)
    → Good false (new_unsigned yubikey p product device)
unfolding new_unsigned
new_unsigned-Good yubikey p product device =
    then_do-Good false (lock_with (busy_in p.io)) _ (lock-Good false (busy_in p.io)) (
      then_do-Good false (push_in product) _ (push_in-Good false product) (
        then_do-Good false (send_keys p.sends) _ (send_keys-Good false p.sends)
          (authenticated-Good yubikey p device)))

known_unsigned-Good :
    (p : Probe) (device : Text) (is_partition : Bool)
    → Good false (known_unsigned p device is_partition)
unfolding known_unsigned
known_unsigned-Good p device false = Extends-same false
known_unsigned-Good p device true =
    then_do-Good false (lock_with (busy_in p.io)) _ (lock-Good false (busy_in p.io)) (
      then_do-Good false (send_keys p.sends) _ (send_keys-Good false p.sends)
        (take_in-Good p device))

new_signed-Good : (p : Probe) (product device : Text) → Good true (new_signed p product device)
unfolding new_signed
new_signed-Good p product device =
    then_do-Good true (lock_with (busy_out p.io)) _ (lock-Good true (busy_out p.io)) (
      then_do-Good true (push_out product) _ (push_out-Good true product) (
        then_do-Good true (send_keys true) _ (send_keys-Good true true) (
          then_do-Good true (emit (moved_out device) p.moves) _
            (emit-Good true (moved_out device) p.moves refl) (lock-Good true (ready_out p.io)))))

choose-Good :
    (signed b : Bool) (f g : Act) (s : Station)
    → Extends signed s (f s).1
    → Extends signed s (g s).1
    → Extends signed s (if b then f s else g s).1
choose-Good signed true f g s h k = h
choose-Good signed false f g s h k = k

-- For a device that is added, files are copied from it and a user is challenged only where it is not
-- signed, and files are moved to it only where it is.
pub handle_device-Extends :
    (yubikey : Bool) (p : Probe) (signed is_partition : Bool) (product device : Text) (s : Station)
    → Extends signed s (handle_device yubikey p signed is_partition product device s).1
unfolding handle_device
handle_device-Extends yubikey p true is_partition product device s =
    choose-Good true (mem_text product s.keys_out) skip (new_signed p product device) s
      (Extends-same true s) (new_signed-Good p product device s)
handle_device-Extends yubikey p false is_partition product device s =
    choose-Good false (mem_text product s.keys_in) (known_unsigned p device is_partition)
      (new_unsigned yubikey p product device) s (known_unsigned-Good p device is_partition s)
      (new_unsigned-Good yubikey p product device s)
